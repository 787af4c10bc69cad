-- ===== src/Schnorrsig/Constructed.antt =====
-- The signatures that the Schnorr target constructs, over two builds.
use diffsecp.Prelude.{
  ℕ, List, ◌++◌, ◌≡◌, refl, arith, Bool, length, length-append, length-take, length-drop,
  length-replicate, take, drop, replicate, is_nonzero, ◌==◌,
}
use diffsecp.Run.Agree.{Agree, Agree-pure, Agree-call, Agree-if, Agree-bind}
use diffsecp.Run.Results.{Beside, SameBytes, Both-Beside}
use diffsecp.Schnorrsig.Api.{SchnorrsigApi}
use diffsecp.Schnorrsig.Contract.{SchnorrsigContract, FailsAlike}
use diffsecp.Schnorrsig.Target.{
  schnorrsig_even_key, schnorrsig_challenge_key, schnorrsig_odd_r, schnorrsig_infinity_r,
  challenge_tag,
}

-- A condition and 32 or 64 bytes, the same in both builds.
abbrev pub SameAnswer : ℕ → Bool × List ℕ → Bool × List ℕ → Type 0
SameAnswer n = Beside (SameBytes n)

length-halves : (b c : List ℕ) → length b ≡ 32 → length c ≡ 32 → length (b ++ c) ≡ 64
length-halves b c l m = omega (arith, length-append {0} b c)

length-zeros : length (replicate {A = ℕ} 32 0) ≡ 32
length-zeros = length-replicate {0} {A = ℕ} 32 0

module _ (f g : SchnorrsigApi) (c : SchnorrsigContract f g) (u : FailsAlike f g c) where
  pub even_key-Agree :
      (k : f.Keypair) (k' : g.Keypair) (parity : ℕ)
      → c.SameKeypair k k'
      → Agree 0
          (Beside (λ b b'. SameBytes 32 b b' × c.IsKey b))
          (schnorrsig_even_key f k parity)
          (schnorrsig_even_key g k' parity)
  unfolding schnorrsig_even_key
  even_key-Agree k k' parity h = Agree-call (c.keypair_sec k k' h) λ s s' e.
      rw (← e.0, ← e.1.0.0)
        (Agree-if (is_nonzero s.0)
          (λ ok.
            Agree-if (parity == 0) (λ _. Agree-pure _ _ (refl, ((refl, e.1.0.1), e.1.1)))
              (λ _.
                Agree-call (c.seckey_negate_key s.1 e.1.0.1 e.1.1)
                  λ n n' en. rw (← en.0) (Agree-pure _ _ (refl, en.1))))
          (λ _. Agree-pure _ _ (refl, ((refl, e.1.0.1), e.1.1))))

  challenge_key-Agree :
      (ed sig64 msg pk32 : List ℕ) (k : f.Keypair) (k' : g.Keypair) (parity : ℕ)
      → length ed ≡ 32
      → c.SameKeypair k k'
      → Agree 0
          (λ a b. SameAnswer 32 a b)
          (schnorrsig_challenge_key f ed sig64 msg k parity pk32)
          (schnorrsig_challenge_key g ed sig64 msg k' parity pk32)
  unfolding schnorrsig_challenge_key
  challenge_key-Agree ed sig64 msg pk32 k k' parity l h =
      Agree-call (c.tagged_sha256 challenge_tag (take 32 sig64 ++ (pk32 ++ msg))) λ e e' h1.
        rw (← h1.0) (
          Agree-if (is_nonzero e.0)
            (λ ok. Agree-bind 0 (even_key-Agree k k' parity h) refl λ d d' hd.
              let size : length d.1 ≡ 32 = hd.1.0.1 in
              rw (← hd.0, ← hd.1.0.0, ← (h1.1 ok).0)
                (Agree-if d.0
                  (λ _.
                    Agree-call
                      (Both-Beside (SameBytes 32) (c.seckey_tweak_mul d.1 e.1 size (h1.1 ok).1)
                        (u.seckey_tweak_mul d.1 e.1 size (h1.1 ok).1))
                      λ m m' hm. rw (← hm.0) (Agree-pure _ _ (refl, hm.1)))
                  (λ _. Agree-pure _ _ (refl, (refl, size)))))
            (λ _. Agree-pure _ _ (refl, (refl, l))))

  pub odd_r-Agree :
      (sig64 msg pk32 : List ℕ) (k : f.Keypair) (k' : g.Keypair) (parity : ℕ)
      → length sig64 ≡ 64
      → c.SameKeypair k k'
      → Agree 0
          (λ a b. SameAnswer 64 a b)
          (schnorrsig_odd_r f sig64 msg k parity pk32)
          (schnorrsig_odd_r g sig64 msg k' parity pk32)
  unfolding schnorrsig_odd_r
  odd_r-Agree sig64 msg pk32 k k' parity l h =
      Agree-bind 0 (challenge_key-Agree _ sig64 msg pk32 k k' parity length-zeros h) refl λ e e' he.
        rw (← he.0, ← he.1.0)
          (Agree-if e.0
            (λ _. Agree-call (c.seckey_tweak_add e.1 e.1 he.1.1 he.1.1) λ d d' hd. rw (← hd.0) (
              Agree-if (is_nonzero d.0)
                (λ dok.
                  Agree-call
                    (c.seckey_negate (drop 32 sig64) (omega (arith, l, length-drop {0} 32 sig64)))
                    λ n n' hn.
                      rw (← hn.0, ← (hd.1 dok).0)
                        (Agree-if (is_nonzero n.0)
                          (λ nok. rw (← (hn.1 nok).0) (
                            Agree-call (c.seckey_tweak_add d.1 n.1 (hd.1 dok).1 (hn.1 nok).1)
                              λ s s' hs. rw (← hs.0) (
                                Agree-if (is_nonzero s.0)
                                  (λ sok. rw (← (hs.1 sok).0) (
                                    Agree-pure _ _ (
                                      refl,
                                      (
                                        refl,
                                        length-halves (take 32 sig64) s.1
                                            (omega (arith, l, length-take {0} 32 sig64))
                                            (hs.1 sok).1,
                                      ),
                                    )))
                                  (λ _. Agree-pure _ _ (refl, (refl, l))))))
                          (λ _. Agree-pure _ _ (refl, (refl, l)))))
                (λ _. Agree-pure _ _ (refl, (refl, l)))))
            (λ _. Agree-pure _ _ (refl, (refl, l))))

  pub infinity_r-Agree :
      (sig64 msg pk32 : List ℕ) (k : f.Keypair) (k' : g.Keypair) (parity : ℕ)
      → length sig64 ≡ 64
      → c.SameKeypair k k'
      → Agree 0
          (λ a b. SameAnswer 64 a b)
          (schnorrsig_infinity_r f sig64 msg k parity pk32)
          (schnorrsig_infinity_r g sig64 msg k' parity pk32)
  unfolding schnorrsig_infinity_r
  infinity_r-Agree sig64 msg pk32 k k' parity l h =
      Agree-bind 0
        (challenge_key-Agree (drop 32 sig64) (replicate 32 0 ++ drop 32 sig64) msg pk32 k k' parity
          (omega (arith, l, length-drop {0} 32 sig64)) h)
        refl
        λ e e' he.
          rw (← he.0, ← he.1.0)
            (Agree-pure _ _ (refl, (refl, length-halves (replicate 32 0) e.1 length-zeros he.1.1)))
