-- ===== src/Ecdsa/Signing.antt =====
-- Signing in the ECDSA target over two builds, and the nonce functions that it is given.
use diffsecp.Prelude.{
  ℕ, ℤ, pos, of_bool, List, [], ◌≡◌, refl, arith, Bool, true, false, Option, some, length,
  length-drop, drop, is_nonzero, ◌==◌, ltb, if◌then◌else◌, has_flag,
}
use diffsecp.Run.{pure, lift, ◌>>=◌}
use diffsecp.Run.Agree.{
  Agree, Both, Agree-pure, Agree-call, Agree-shared, Agree-step, Agree-if, Agree-bind, Agree-weaken,
}
use diffsecp.Run.Steps.{Does-u8, Does-take, Does-put_int}
use diffsecp.Run.Results.{Succeeds, SameBytes}
use diffsecp.Ecdsa.Api.{EcdsaApi, Nonce, rfc6979, custom}
use diffsecp.Ecdsa.Contract.{EcdsaContract, IsExtra, SameNonceFunction, SameNonce}
use diffsecp.Ecdsa.Target.{
  EcdsaNonce, ecdsa_nonce_zero_s, ecdsa_nonce_algo, ecdsa_nonce_default, algo16_name, given_if,
  ecdsa_nonce, ecdsa_zero_s, chosen_msg, ecdsa_sign_nonce,
}

-- Both nonces have 32 bytes, the name 16 and the extra bytes 32.
record IsNonce (n : EcdsaNonce) : Type 0 where
  fixed0 : length n.fixed0 ≡ 32
  fixed1 : length n.fixed1 ≡ 32
  algo16 : (a : List ℕ) → n.algo16 ≡ some a → length a ≡ 16
  ndata : IsExtra n.ndata

given_if-length :
    (b : Bool) (d : List ℕ) (k : ℕ)
    → length d ≡ k
    → (a : List ℕ) → given_if b d ≡ some a
    → length a ≡ k
given_if-length true d k l a e = ground (arith, e, l)
given_if-length false d k l a e = ground (arith, e)

module _ (f g : EcdsaApi) (c : EcdsaContract f g) where
  ecdsa_nonce-SameNonceFunction :
      (n : EcdsaNonce) → IsNonce n → SameNonceFunction (ecdsa_nonce f n) (ecdsa_nonce g n)
  unfolding ecdsa_nonce
  ecdsa_nonce-SameNonceFunction n v msg key algo counter lm lk =
      by_counter (counter == n.fail_at) (ltb counter n.n_fixed) (counter == 0)
    where
      by_counter :
          (failed fixed first : Bool)
          → Both
              (Succeeds (SameBytes 32))
              (if failed
                then some (pos 0, [])
                else if fixed
                then some (pos 1, (if first then n.fixed0 else n.fixed1))
                else f.nonce_function_rfc6979 msg key n.algo16 n.ndata counter)
              (if failed
                then some (pos 0, [])
                else if fixed
                then some (pos 1, (if first then n.fixed0 else n.fixed1))
                else g.nonce_function_rfc6979 msg key n.algo16 n.ndata counter)
      by_counter true fixed first = (_, _, refl, refl, (refl, λ ok. ground (arith, ok)))
      by_counter false true true = (_, _, refl, refl, (refl, λ _. (refl, v.fixed0)))
      by_counter false true false = (_, _, refl, refl, (refl, λ _. (refl, v.fixed1)))
      by_counter false false first =
          c.nonce_function_rfc6979 msg key n.algo16 n.ndata counter lm lk v.algo16 v.ndata

  zero_s-Agree :
      (msg seckey k32 : List ℕ)
      → length msg ≡ 32
      → length seckey ≡ 32
      → length k32 ≡ 32
      → Agree 0
          (λ p q. (p ≡ q) × (length p.1 ≡ 32))
          (ecdsa_zero_s f msg seckey k32)
          (ecdsa_zero_s g msg seckey k32)
  unfolding ecdsa_zero_s
  zero_s-Agree msg seckey k32 lm ls lk = Agree-call (c.pubkey_create k32 lk) λ p p' hp.
      rw (← hp.0) (
        Agree-if (is_nonzero p.0)
          (λ ok. Agree-shared (c.pubkey_serialize p.1 p'.1 33 true (omega arith) (hp.1 ok)) λ ser l.
            Agree-call (c.scalar.set_b32 (drop 1 ser) (omega (arith, l, length-drop {0} 1 ser)))
              λ r r' hr. Agree-call (c.scalar.set_b32 seckey ls) λ d d' hd.
                Agree-call (c.scalar.mul r.1 d.1 r'.1 d'.1 hr.1 hd.1) λ m m' hm.
                  Agree-call (c.scalar.negate m m' hm) λ n n' hn.
                    Agree-shared (c.scalar.get_b32 n n' hn) λ b lb. Agree-pure _ _ (refl, lb))
          (λ _. Agree-pure _ _ (refl, lm)))

  chosen_msg-Agree :
      (flags : ℕ) (msg seckey k32 : List ℕ)
      → length msg ≡ 32
      → length seckey ≡ 32
      → length k32 ≡ 32
      → Agree 4
          (SameBytes 32)
          (chosen_msg f flags msg seckey k32)
          (chosen_msg g flags msg seckey k32)
  unfolding chosen_msg
  chosen_msg-Agree flags msg seckey k32 lm ls lk =
      Agree-if (has_flag flags ecdsa_nonce_zero_s)
        (λ _. Agree-bind 0 (zero_s-Agree msg seckey k32 lm ls lk) refl λ z z' e.
          rw (← e.0)
            (Agree-step 4 (Does-put_int (of_bool z.0)) refl λ _ _. Agree-pure _ _ (refl, e.1)))
        (λ _. Agree-pure _ _ (refl, lm))

  -- What signing returns, and the 32 bytes that were signed.
  abbrev pub SameSigning : (ℤ × f.Signature) × List ℕ → (ℤ × g.Signature) × List ℕ → Type 0
  SameSigning p q = Succeeds c.SameSignature p.0 q.0 × SameBytes 32 p.1 q.1

  pub sign-Agree :
      (msg seckey : List ℕ) (n n' : Nonce)
      → length msg ≡ 32
      → length seckey ≡ 32
      → SameNonce n n'
      → Agree 0 SameSigning
          (do s ← lift (f.sign msg seckey n); pure (s, msg))
          (do s ← lift (g.sign msg seckey n'); pure (s, msg))
  sign-Agree msg seckey n n' lm ls h =
      Agree-call (c.sign msg seckey n n' lm ls h) λ s s' e. Agree-pure _ _ (e, (refl, lm))

  pub sign_nonce-Agree :
      (msg seckey : List ℕ) (ndata : Option (List ℕ))
      → length msg ≡ 32
      → length seckey ≡ 32
      → IsExtra ndata
      → Agree 4 SameSigning
          (ecdsa_sign_nonce f msg seckey ndata)
          (ecdsa_sign_nonce g msg seckey ndata)
  unfolding ecdsa_sign_nonce
  sign_nonce-Agree msg seckey ndata lm ls ln = Agree-step 0 Does-u8 refl λ flags _.
      Agree-step 0 (Does-take 32) refl λ fixed0 l0. Agree-step 0 (Does-take 32) refl λ fixed1 l1.
        Agree-if (has_flag flags ecdsa_nonce_default)
          (λ _.
            Agree-weaken (omega arith)
              (sign-Agree msg seckey (rfc6979 ndata) (rfc6979 ndata) lm ls (refl, ln)))
          (λ _. Agree-bind 4 (chosen_msg-Agree flags msg seckey fixed0 lm ls l0) refl λ m m' e.
            rw (← e.0) (
              sign-Agree m seckey (custom _) (custom _) e.1 ls (
                ecdsa_nonce-SameNonceFunction _ (record {
                  fixed0 = l0;
                  fixed1 = l1;
                  algo16 = given_if-length (has_flag flags ecdsa_nonce_algo) algo16_name 16 refl;
                  ndata = ln;
                }))))
