-- ===== src/Keys/Cases.antt =====
-- The branches of the keys target's switch that have a function of their own.
use diffsecp.Prelude.{
  ℕ, zero, suc, ◌+◌, ◌*◌, ◌≤◌, ℤ, List, [], ◌∷◌, ◌≡◌, refl, arith, length, true, Bool, is_nonzero,
  ◌&&◌, Bool-cases, inl, inr, Option,
}
use diffsecp.Run.Agree.{
  Agree, Agree-pure, Agree-call, Agree-shared, Agree-step, Agree-if, Agree-post, Agree-bind,
  Agree-bind_le, Both,
}
use diffsecp.Run.Steps.{Does-put, Does-put_int}
use diffsecp.Run.{M}
use diffsecp.Keys.Api.{KeysApi}
use diffsecp.Run.Results.{Pairwise, Succeeds, SameBytes}
use diffsecp.Keys.Contract.{KeysContract}
use diffsecp.Keys.Target.{
  Reg, Regs, keys_sign, keys_keypair_tweak, keys_xonly, keys_xonly_order, valid_keys,
  record_pubkeys, sort_keys, keys_sort, combine_keys, seckey_case, pubkey_case,
}
use diffsecp.Keys.Records.{RegAgree, RegsAgree, keys_record_pubkey-Agree, keys_seckey_result-Agree}

module _ (f g : KeysApi) (c : KeysContract f g) where
  -- The keys that a loop collects are valid, the same in both builds, and no more than it tries.
  pub valid_keys-Pairwise :
      (mask : ℕ → Bool) (left j : ℕ) (reg : Regs f) (reg' : Regs g)
      → RegsAgree f g c reg reg'
      → Pairwise c.Same (valid_keys f mask left j reg) (valid_keys g mask left j reg')
        × (length (valid_keys f mask left j reg) ≤ left)
  unfolding valid_keys
  valid_keys-Pairwise mask zero j reg reg' h = (tt, omega arith)
  valid_keys-Pairwise mask (suc left) j reg reg' h =
      let rest = valid_keys-Pairwise mask left (j + 1) reg reg' h in
      rw (← (h j).same_ok) (elim (Bool-cases (mask j && is_nonzero (reg j).pk_ok)) [
        | inl good ↦ rw good (((h j).key (ground (arith, good)), rest.0), omega (arith, rest.1))
        | inr bad ↦ rw bad (rest.0, omega (arith, rest.1))
      ])

  record_pubkeys-Agree :
      (n : ℕ) (ps : List f.Pubkey) (qs : List g.Pubkey)
      → Pairwise c.Same ps qs
      → 33 * length ps ≤ n
      → Agree n (λ _ _. Unit {0}) (record_pubkeys f ps) (record_pubkeys g qs)
  unfolding record_pubkeys
  record_pubkeys-Agree n [] [] h l = Agree-pure tt tt tt
  record_pubkeys-Agree n [] (q ∷ qs) h l = absurd h
  record_pubkeys-Agree n (p ∷ ps) [] h l = absurd h
  record_pubkeys-Agree n (p ∷ ps) (q ∷ qs) h l =
      Agree-bind_le 33 {k = 33 * length ps} (omega (arith, l))
        (keys_record_pubkey-Agree f g c p q h.0)
        λ _ _ _. record_pubkeys-Agree (33 * length ps) ps qs h.1 (omega arith)

  sort_keys-Agree :
      (ps : List f.Pubkey) (qs : List g.Pubkey)
      → Pairwise c.Same ps qs
      → length ps ≤ 4
      → Agree 136 (λ _ _. Unit {0}) (sort_keys f ps) (sort_keys g qs)
  unfolding sort_keys
  sort_keys-Agree [] [] h l = Agree-pure tt tt tt
  sort_keys-Agree [] (q ∷ qs) h l = absurd h
  sort_keys-Agree (p ∷ ps) [] h l = absurd h
  sort_keys-Agree (p ∷ ps) (q ∷ qs) h l = Agree-call (c.pubkey_sort (p ∷ ps) (q ∷ qs) h) λ s s' e.
      rw (← e.0) (
        Agree-step 4 (Does-put_int s.0) refl
          λ _ _. record_pubkeys-Agree 132 s.1 s'.1 e.1 (omega (arith, l, e.2)))

  pub keys_sort-Agree :
      (reg : Regs f) (reg' : Regs g)
      → RegsAgree f g c reg reg'
      → Agree 136 (λ _ _. Unit {0}) (keys_sort f reg) (keys_sort g reg')
  unfolding keys_sort
  keys_sort-Agree reg reg' h =
      let k = valid_keys-Pairwise (λ j. true) 4 0 reg reg' h in
      sort_keys-Agree (valid_keys f (λ j. true) 4 0 reg) (valid_keys g (λ j. true) 4 0 reg') k.0 k.1

  module _ {d : Reg f} {d' : Reg g} (h : RegAgree f g c d d') where
    abbrev Keeps : M (Reg f) → M (Reg g) → Type 0
    Keeps m m' = Agree 144 (λ s s'. RegAgree f g c s s') m m'

    pub with_key :
        (r : ℤ × f.Pubkey) (r' : ℤ × g.Pubkey)
        → Succeeds c.Same r r'
        → RegAgree f g c
            (record d { pk = r.1; pk_ok = r.0 })
            (record d' { pk = r'.1; pk_ok = r'.0 })
    with_key r r' e = record { same_sk = h.same_sk; size = h.size; same_ok = e.0; key = e.1 }

    pub pubkey_case_agree :
        {o : Option (ℤ × f.Pubkey)} {o' : Option (ℤ × g.Pubkey)}
        → Both (Succeeds c.Same) o o'
        → Keeps (pubkey_case f d o) (pubkey_case g d' o')
    pubkey_case_agree b = Agree-call b λ r r' e. Agree-pure _ _ (with_key r r' e)

    pub combine_keys_agree :
        (ps : List f.Pubkey) (qs : List g.Pubkey)
        → Pairwise c.Same ps qs
        → Keeps (combine_keys f d ps) (combine_keys g d' qs)
    unfolding combine_keys
    combine_keys_agree [] [] p = Agree-pure _ _ h
    combine_keys_agree [] (y ∷ ys) p = absurd p
    combine_keys_agree (x ∷ xs) [] p = absurd p
    combine_keys_agree (x ∷ xs) (y ∷ ys) p = pubkey_case_agree (c.pubkey_combine x y xs ys p.0 p.1)

    pub seckey_case_agree :
        {o o' : Option (ℤ × List ℕ)}
        → Both (Succeeds (SameBytes 32)) o o'
        → Keeps (seckey_case f d o) (seckey_case g d' o')
    seckey_case_agree b = Agree-call b λ r r' e. rw (← e.0) (
        Agree-bind 4 (keys_seckey_result-Agree r.0 r.1 r'.1 e.1) refl λ k k' s.
          Agree-pure _ _ (record { same_sk = s.0; size = s.1; same_ok = h.same_ok; key = h.key }))

    pub keypair_tweak_agree :
        (sk tweak : List ℕ)
        → length sk ≡ 32
        → length tweak ≡ 32
        → Keeps (keys_keypair_tweak f d sk tweak) (keys_keypair_tweak g d' sk tweak)
    unfolding keys_keypair_tweak
    keypair_tweak_agree sk tweak l lt = Agree-call (c.keypair_create sk l) λ k k' e. rw (← e.0) (
        Agree-step 4 (Does-put_int k.0) refl λ _ _.
          Agree-if (is_nonzero k.0)
            (λ ok. Agree-call (c.keypair_xonly_pub k.1 k'.1 (e.1 ok)) λ x x' ex.
              Agree-shared (c.xonly_serialize x.1 x'.1 ex.1) λ ser ls. rw (← ex.0) (
                Agree-step 4 (Does-put_int x.0) refl λ _ _.
                  Agree-step 32 (Does-put ser 32 (omega (arith, ls))) refl λ _ _.
                    Agree-call (c.keypair_xonly_tweak_add tweak k.1 k'.1 lt (e.1 ok)) λ t t' et.
                      rw (← et.0) (
                        Agree-step 4 (Does-put_int t.0) refl λ _ _.
                          Agree-if (is_nonzero t.0)
                            (λ good. Agree-shared (c.keypair_sec t.1 t'.1 (et.1 good)) λ sec lsec.
                              Agree-call (c.keypair_pub t.1 t'.1 (et.1 good)) λ p p' same.
                                Agree-pure _ _ (record {
                                  same_sk = refl;
                                  size = lsec;
                                  same_ok = refl;
                                  key = λ _. same;
                                }))
                            (λ _. Agree-pure _ _ h))))
            (λ _. Agree-pure _ _ h))

    xonly_order-Agree :
        (x : f.Xonly) (x' : g.Xonly) (b : Reg f) (b' : Reg g)
        → c.SameXonly x x'
        → RegAgree f g c b b'
        → Agree 4 (λ _ _. Unit {0}) (keys_xonly_order f x b) (keys_xonly_order g x' b')
    unfolding keys_xonly_order
    xonly_order-Agree x x' b b' sx hb = rw (← hb.same_ok) (
        Agree-if (is_nonzero b.pk_ok)
          (λ ok. Agree-call (c.xonly_from_pubkey b.pk b'.pk (hb.key ok)) λ y y' ey.
            Agree-call (c.xonly_cmp x y.1 x' y'.1 sx ey.1)
              λ k k' e. rw (← e) (Agree-post (Does-put_int (keys_sign k)) (λ _ _ _. tt)))
          (λ _. Agree-pure tt tt tt))

    pub xonly_agree :
        (a b : Reg f) (a' b' : Reg g) (tweak : List ℕ)
        → length tweak ≡ 32
        → RegAgree f g c a a'
        → RegAgree f g c b b'
        → Keeps (keys_xonly f d a b tweak) (keys_xonly g d' a' b' tweak)
    unfolding keys_xonly
    xonly_agree a b a' b' tweak l ha hb = rw (← ha.same_ok) (
        Agree-if (is_nonzero a.pk_ok)
          (λ ok. Agree-call (c.xonly_from_pubkey a.pk a'.pk (ha.key ok)) λ x x' ex.
            Agree-shared (c.xonly_serialize x.1 x'.1 ex.1) λ ser ls. rw (← ex.0) (
              Agree-step 4 (Does-put_int x.0) refl λ _ _.
                Agree-step 32 (Does-put ser 32 (omega (arith, ls))) refl λ _ _.
                  Agree-bind 4 (xonly_order-Agree x.1 x'.1 b b' ex.1 hb) refl λ _ _ _.
                    Agree-call (c.xonly_tweak_add tweak x.1 x'.1 l ex.1) λ t t' et. rw (← et.0) (
                      Agree-step 4 (Does-put_int t.0) refl λ _ _.
                        Agree-if (is_nonzero t.0)
                          (λ good. Agree-pure _ _ (record {
                            same_sk = h.same_sk;
                            size = h.size;
                            same_ok = refl;
                            key = λ _. et.1 good;
                          }))
                          (λ _. Agree-pure _ _ h))))
          (λ _. Agree-pure _ _ h))
