-- ===== src/Musig/Tweaks.antt =====
-- Key aggregation and its tweaks in the MuSig2 target, over two builds.
use diffsecp.Prelude.{
  ℕ, ℤ, List, [], ◌∷◌, Option, ◌≡◌, refl, arith, length, Bool, true, false, not, is_nonzero, ◌==◌,
}
use diffsecp.Run.Agree.{
  Agree, Both, Shared, Agree-pure, Agree-call, Agree-shared, Agree-lift, Agree-step, Agree-if,
  Agree-post, Agree-bind,
}
use diffsecp.Run.Steps.{Does-put, Does-put_int}
use diffsecp.Run.Results.{Succeeds, SameBytes, SameOption, Pairwise}
use diffsecp.Musig.Api.{MusigApi}
use diffsecp.Musig.Contract.{MusigContract}
use diffsecp.Musig.Target.{
  Signer, musig_record_pubkey, musig_record_tweaked, aggregate_secret, negate_if, final_negation,
  musig_cancel_tweak,
}
use diffsecp.Musig.Aggregate.{apply_tweak}
use diffsecp.Musig.Signers.{SameSigner}

module _ (f g : MusigApi) (c : MusigContract f g) where
  pub record_tweaked-Agree :
      (k : f.Cache) (k' : g.Cache)
      → c.SameCache k k'
      → Agree 37 c.SamePubkey (musig_record_tweaked f k) (musig_record_tweaked g k')
  unfolding musig_record_tweaked musig_record_pubkey
  record_tweaked-Agree k k' h = Agree-call (c.pubkey_get k k' h) λ p p' hp. rw (← hp.0) (
      Agree-step 4 (Does-put_int p.0) refl λ _ _.
        Agree-bind 33
          (Agree-shared (c.pubkey_serialize p.1 p'.1 33 true (omega arith) hp.1) λ b l.
            Agree-post {Q = λ _ _. Unit {0}} (Does-put b 33 (omega (arith, l))) (λ _ _ _. tt))
          refl λ _ _ _. Agree-pure _ _ hp.1)

  aggregate_secret-Agree :
      (i : f.CacheInternal) (i' : g.CacheInternal) (ss : List (Signer f)) (ss' : List (Signer g))
      (d : f.scalar.Sc) (d' : g.scalar.Sc)
      → c.SameInternal i i'
      → Pairwise (SameSigner f g c) ss ss'
      → c.scalar.Value d d'
      → Agree 0 c.scalar.Value (aggregate_secret f i ss d) (aggregate_secret g i' ss' d')
  unfolding aggregate_secret
  aggregate_secret-Agree i i' [] [] d d' hi h hd = Agree-pure _ _ hd
  aggregate_secret-Agree i i' [] (s' ∷ ss') d d' hi h hd = absurd h
  aggregate_secret-Agree i i' (s ∷ ss) [] d d' hi h hd = absurd h
  aggregate_secret-Agree i i' (s ∷ ss) (s' ∷ ss') d d' hi h hd = rw (← h.0.seeds) (
      Agree-call (c.pubkey_load s.pubkey s'.pubkey h.0.pubkey) λ p p' hp.
        Agree-call (c.keyaggcoef i i' p.1 p'.1 hi hp.1) λ a a' ha.
          Agree-call (c.scalar.set_b32 s.seeds.seckey h.0.sized.seckey) λ x x' hx.
            Agree-call (c.scalar.mul a x.1 a' x'.1 ha hx.1) λ m m' hm.
              Agree-call (c.scalar.add d m d' m' hd hm)
                λ t t' ht. aggregate_secret-Agree i i' ss ss' t.1 t'.1 hi h.1 ht.1)

  negate_if-Agree :
      (b : Bool) (d : f.scalar.Sc) (d' : g.scalar.Sc)
      → c.scalar.Value d d'
      → Agree 0 c.scalar.Value (negate_if f b d) (negate_if g b d')
  unfolding negate_if
  negate_if-Agree true d d' h = Agree-lift (c.scalar.negate d d' h)
  negate_if-Agree false d d' h = Agree-pure _ _ h

  final_negation-Agree :
      (xonly : Bool) (y : f.field.Fe) (y' : g.field.Fe)
      → c.field.Normal y y'
      → Agree 0 (λ a b. a ≡ b) (final_negation f xonly y) (final_negation g xonly y')
  unfolding final_negation
  final_negation-Agree xonly y y' h =
      Agree-if xonly (λ _. Agree-shared (c.field.is_odd y y' h) λ v _. Agree-pure _ _ refl)
        (λ _. Agree-pure _ _ refl)

  cancel_tweak-Agree :
      (k : f.Cache) (k' : g.Cache) (ss : List (Signer f)) (ss' : List (Signer g)) (xonly : Bool)
      → c.SameCache k k'
      → Pairwise (SameSigner f g c) ss ss'
      → Agree 0 (SameBytes 32) (musig_cancel_tweak f k ss xonly) (musig_cancel_tweak g k' ss' xonly)
  unfolding musig_cancel_tweak
  cancel_tweak-Agree k k' ss ss' xonly h hs = Agree-call (c.keyagg_cache_load k k' h) λ i i' hi.
      rw (← c.internal_parity i.1 i'.1 hi.1) (
        Agree-call c.scalar.set_int_zero λ z z' hz.
          Agree-bind 0 (aggregate_secret-Agree i.1 i'.1 ss ss' z z' hi.1 hs hz) refl λ d d' hd.
            Agree-bind 0 (negate_if-Agree (not (f.cache_parity_acc i.1 == 0)) d d' hd) refl
              λ e e' he.
                Agree-call (c.scalar.add e _ e' _ he (c.internal_tweak i.1 i'.1 hi.1)) λ t t' ht.
                  Agree-call
                    (c.field.normalize_var 3 _ _ (omega arith) (c.internal_pk_y i.1 i'.1 hi.1))
                    λ y y' hy. Agree-bind 0 (final_negation-Agree xonly y y' hy) refl λ b b' hb.
                      rw (← hb) (
                        Agree-bind 0 (negate_if-Agree b t.1 t'.1 ht.1) refl
                          λ u u' hu. Agree-lift (both (c.scalar.get_b32 u u' hu))))
    where
      both : {o o' : Option (List ℕ)} → Shared (λ b. length b ≡ 32) o o' → Both (SameBytes 32) o o'
      both (b, e, e', l) = (b, b, e, e', (refl, l))

  -- The aggregate key and the cache, unless the target ended.
  abbrev pub SameKey : f.Pubkey × f.Cache → g.Pubkey × g.Cache → Type 0
  SameKey p q = c.SamePubkey p.0 q.0 × c.SameCache p.1 q.1

  pub apply_tweak-Agree :
      (wanted cancel xonly : Bool) (tweak : List ℕ) (add : f.Cache → List ℕ → Option (ℤ × f.Cache))
      (add' : g.Cache → List ℕ → Option (ℤ × g.Cache)) (ss : List (Signer f))
      (ss' : List (Signer g)) (p : f.Pubkey × f.Cache) (q : g.Pubkey × g.Cache)
      → length tweak ≡ 32
      → ((k : f.Cache) (k' : g.Cache) (t : List ℕ)
          → length t ≡ 32
          → c.SameCache k k'
          → Both (Succeeds c.SameCache) (add k t) (add' k' t))
      → Pairwise (SameSigner f g c) ss ss'
      → SameKey p q
      → Agree 41
          (SameOption SameKey)
          (apply_tweak f wanted cancel xonly tweak add ss p)
          (apply_tweak g wanted cancel xonly tweak add' ss' q)
  unfolding apply_tweak
  apply_tweak-Agree wanted cancel xonly tweak add add' ss ss' p q l adds hs h =
      Agree-if wanted
        (λ _.
          Agree-bind 0
            (Agree-if {Q = SameBytes 32} cancel
              (λ _. cancel_tweak-Agree p.1 q.1 ss ss' xonly h.1 hs) (λ _. Agree-pure _ _ (refl, l)))
            refl
            λ t t' ht. rw (← ht.0) (
              Agree-call (adds p.1 q.1 t ht.1 h.1) λ k k' hk. rw (← hk.0) (
                Agree-step 4 (Does-put_int k.0) refl λ _ _.
                  Agree-if (is_nonzero k.0)
                    (λ ok.
                      Agree-bind 37 (record_tweaked-Agree k.1 k'.1 (hk.1 ok)) refl
                        λ a a' ha. Agree-pure _ _ (ha, hk.1 ok))
                    (λ _. Agree-pure _ _ tt))))
        (λ _. Agree-pure _ _ h)
