-- ===== src/Musig/Nonces.antt =====
-- The nonces of the MuSig2 target over two builds, and the parties that have them.
use diffsecp.Prelude.{
  ℕ, zero, suc, ◌+◌, ◌*◌, ◌^◌, ◌<◌, List, [], ◌∷◌, ◌≡◌, refl, arith, length, get_elem?, Bool, true,
  false, is_nonzero, has_flag, if◌then◌else◌,
}
use diffsecp.Run.Agree.{
  Agree, Both, Agree-pure, Agree-call, Agree-shared, Agree-step, Agree-if, Agree-bind_le,
}
use diffsecp.Run.Steps.{Does-put, Does-put_int}
use diffsecp.Run.Results.{Succeeds, SameOption, Pairwise}
use diffsecp.Musig.Api.{MusigApi}
use diffsecp.Musig.Contract.{MusigContract, SameGiven}
use diffsecp.Musig.Target.{MusigInput, Signer}
use diffsecp.Musig.Aggregate.{
  replace, given_if, counter_of, musig_counter, musig_nonce_inputs, musig_fuzz_pubnonce,
  musig_fuzz_aggnonce,
}
use diffsecp.Musig.Machine.{Party, gen_nonce, make_nonces, fuzz_pubnonce, fuzz_aggnonce}
use diffsecp.Musig.Signers.{IsInput, SameSigner, SameMade, add_first-SameMade}

counter_bound : (j : ℕ) (b : List ℕ) → counter_of j b < 2 ^ 64
unfolding counter_of
counter_bound zero b = omega arith
counter_bound (suc j) b = omega arith

-- A replaced element keeps the lists related, and their length.
pub replace-Pairwise :
    {A B : Type 0} (R : A → B → Type 0) (xs : List A) (ys : List B) (i : ℕ) (a : A) (b : B)
    → R a b
    → Pairwise R xs ys
    → Pairwise R (replace xs i a) (replace ys i b) × (length (replace xs i a) ≡ length xs)
unfolding replace
replace-Pairwise R [] [] i a b r h = (tt, refl)
replace-Pairwise R [] (y ∷ ys) i a b r h = absurd h
replace-Pairwise R (x ∷ xs) [] i a b r h = absurd h
replace-Pairwise R (x ∷ xs) (y ∷ ys) zero a b r h = ((r, h.1), refl)
replace-Pairwise R (x ∷ xs) (y ∷ ys) (suc i) a b r h =
    let rest = replace-Pairwise R xs ys i a b r h.1 in ((h.0, rest.0), omega (arith, rest.1))

-- An element in range is there in both lists.
pub get_elem?-both :
    {A B : Type 0} (R : A → B → Type 0) (xs : List A) (ys : List B) (i : ℕ)
    → i < length xs
    → Pairwise R xs ys
    → Both R (get_elem? xs i) (get_elem? ys i)
get_elem?-both R [] ys i l h = absurd (omega (arith, l))
get_elem?-both R (x ∷ xs) [] i l h = absurd h
get_elem?-both R (x ∷ xs) (y ∷ ys) zero l h = (x, y, refl, refl, h.0)
get_elem?-both R (x ∷ xs) (y ∷ ys) (suc i) l h = get_elem?-both R xs ys i (omega (arith, l)) h.1

given_same : (b : Bool) (d : List ℕ) → length d ≡ 32 → SameGiven (given_if b d) (given_if b d)
given_same true d l = (refl, l)
given_same false d l = tt

module _ (f g : MusigApi) (c : MusigContract f g) where
  pub record SameParty (p : Party f) (q : Party g) : Type 0 where
    pub signer : SameSigner f g c p.signer q.signer
    pub unused : c.Unused p.signer.pubkey p.secnonce q.signer.pubkey q.secnonce
    pub pubnonce : c.SamePubnonce p.pubnonce q.pubnonce

  given_cache :
      (b : Bool) (k : f.Cache) (k' : g.Cache)
      → c.SameCache k k'
      → SameOption c.SameCache (given_if b k) (given_if b k')
  given_cache true k k' h = h
  given_cache false k k' h = tt

  gen_nonce-both :
      (mi : MusigInput) (k : f.Cache) (k' : g.Cache) (s : Signer f) (s' : Signer g)
      → IsInput mi
      → c.SameCache k k'
      → SameSigner f g c s s'
      → Both
          (Succeeds (λ n n'. c.Unused s.pubkey n.0 s'.pubkey n'.0 × c.SamePubnonce n.1 n'.1))
          (gen_nonce f mi k s)
          (gen_nonce g mi k' s')
  unfolding gen_nonce
  gen_nonce-both mi k k' s s' v hk h = rw (← h.seeds) (by_counter (has_flag mi.flags musig_counter))
    where
      by_counter :
          (b : Bool)
          → Both
              (Succeeds (λ n n'. c.Unused s.pubkey n.0 s'.pubkey n'.0 × c.SamePubnonce n.1 n'.1))
              (if b
                then f.nonce_gen_counter
                    (counter_of 8 s.seeds.secrand)
                    s.keypair
                    (given_if (has_flag mi.flags musig_nonce_inputs) mi.msg)
                    (given_if (has_flag mi.flags musig_nonce_inputs) k)
                    (given_if (has_flag mi.flags musig_nonce_inputs) mi.extra)
                else f.nonce_gen s.seeds.secrand
                    (given_if (has_flag mi.flags musig_nonce_inputs) s.seeds.seckey)
                    s.pubkey
                    (given_if (has_flag mi.flags musig_nonce_inputs) mi.msg)
                    (given_if (has_flag mi.flags musig_nonce_inputs) k)
                    (given_if (has_flag mi.flags musig_nonce_inputs) mi.extra))
              (if b
                then g.nonce_gen_counter
                    (counter_of 8 s.seeds.secrand)
                    s'.keypair
                    (given_if (has_flag mi.flags musig_nonce_inputs) mi.msg)
                    (given_if (has_flag mi.flags musig_nonce_inputs) k')
                    (given_if (has_flag mi.flags musig_nonce_inputs) mi.extra)
                else g.nonce_gen s.seeds.secrand
                    (given_if (has_flag mi.flags musig_nonce_inputs) s.seeds.seckey)
                    s'.pubkey
                    (given_if (has_flag mi.flags musig_nonce_inputs) mi.msg)
                    (given_if (has_flag mi.flags musig_nonce_inputs) k')
                    (given_if (has_flag mi.flags musig_nonce_inputs) mi.extra))
      by_counter true =
          c.nonce_gen_counter (counter_of 8 s.seeds.secrand) s.keypair s'.keypair s.pubkey s'.pubkey
            _ _ _ _ _ _ (counter_bound 8 s.seeds.secrand) h.keypair h.owns
            (given_same (has_flag mi.flags musig_nonce_inputs) mi.msg v.msg)
            (given_cache (has_flag mi.flags musig_nonce_inputs) k k' hk)
            (given_same (has_flag mi.flags musig_nonce_inputs) mi.extra v.extra)
      by_counter false =
          c.nonce_gen s.seeds.secrand _ _ s.pubkey s'.pubkey _ _ _ _ _ _ h.sized.secrand
            (given_same (has_flag mi.flags musig_nonce_inputs) s.seeds.seckey h.sized.seckey)
            h.pubkey (given_same (has_flag mi.flags musig_nonce_inputs) mi.msg v.msg)
            (given_cache (has_flag mi.flags musig_nonce_inputs) k k' hk)
            (given_same (has_flag mi.flags musig_nonce_inputs) mi.extra v.extra)

  pub make_nonces-Agree :
      (mi : MusigInput) (k : f.Cache) (k' : g.Cache) (ss : List (Signer f)) (ss' : List (Signer g))
      → IsInput mi
      → c.SameCache k k'
      → Pairwise (SameSigner f g c) ss ss'
      → Agree
          (length ss * 70)
          (SameMade SameParty (length ss))
          (make_nonces f mi k ss)
          (make_nonces g mi k' ss')
  unfolding make_nonces
  make_nonces-Agree mi k k' [] [] v hk h = Agree-pure _ _ (tt, refl)
  make_nonces-Agree mi k k' [] (s' ∷ ss') v hk h = absurd h
  make_nonces-Agree mi k k' (s ∷ ss) [] v hk h = absurd h
  make_nonces-Agree mi k k' (s ∷ ss) (s' ∷ ss') v hk h =
      Agree-call (gen_nonce-both mi k k' s s' v hk h.0) λ n n' hn. rw (← hn.0) (
        Agree-bind_le 4 {k = 66 + length ss * 70} (omega arith) (Does-put_int n.0) λ _ _ _.
          Agree-if (is_nonzero n.0)
            (λ ok. Agree-shared (c.pubnonce_serialize n.1.1 n'.1.1 (hn.1 ok).1) λ b l.
              Agree-bind_le 66 {k = length ss * 70} (omega arith) (Does-put b 66 (omega (arith, l)))
                λ _ _ _.
                  Agree-bind_le (length ss * 70) {k = 0} (omega arith)
                    (make_nonces-Agree mi k k' ss ss' v hk h.1)
                    λ r r' hr. Agree-pure _ _ (
                      add_first-SameMade SameParty (length ss) _ _ r r'
                        (record { signer = h.0; unused = (hn.1 ok).0; pubnonce = (hn.1 ok).1 }) hr))
            (λ _. Agree-pure _ _ tt))

  pub fuzz_pubnonce-Agree :
      (mi : MusigInput) (ns : List f.Pubnonce) (ns' : List g.Pubnonce)
      → IsInput mi
      → Pairwise c.SamePubnonce ns ns'
      → Agree 4
          (λ xs ys. Pairwise c.SamePubnonce xs ys × (length xs ≡ length ns))
          (fuzz_pubnonce f mi ns)
          (fuzz_pubnonce g mi ns')
  unfolding fuzz_pubnonce
  fuzz_pubnonce-Agree mi ns ns' v h =
      Agree-if (has_flag mi.flags musig_fuzz_pubnonce)
        (λ _. Agree-call (c.pubnonce_parse mi.pubnonce v.pubnonce) λ n n' hn. rw (← hn.0) (
          Agree-step 4 (Does-put_int n.0) refl λ _ _.
            Agree-if (is_nonzero n.0)
              (λ ok.
                Agree-pure _ _
                  (replace-Pairwise c.SamePubnonce ns ns' mi.victim n.1 n'.1 (hn.1 ok) h))
              (λ _. Agree-pure _ _ (h, refl))))
        (λ _. Agree-pure _ _ (h, refl))

  pub fuzz_aggnonce-Agree :
      (mi : MusigInput) (n : f.Aggnonce) (n' : g.Aggnonce)
      → IsInput mi
      → c.SameAggnonce n n'
      → Agree 4 c.SameAggnonce (fuzz_aggnonce f mi n) (fuzz_aggnonce g mi n')
  unfolding fuzz_aggnonce
  fuzz_aggnonce-Agree mi n n' v h =
      Agree-if (has_flag mi.flags musig_fuzz_aggnonce)
        (λ _. Agree-call (c.aggnonce_parse mi.aggnonce v.aggnonce) λ m m' hm. rw (← hm.0) (
          Agree-step 4 (Does-put_int m.0) refl λ _ _.
            Agree-if (is_nonzero m.0) (λ ok. Agree-pure _ _ (hm.1 ok)) (λ _. Agree-pure _ _ h)))
        (λ _. Agree-pure _ _ h)
