-- ===== src/Field/Registers.antt =====
-- The invariant of the field target's registers over two builds, and the steps that keep a
-- magnitude within what the next call allows.
use diffsecp.Prelude.{ℕ, ◌+◌, ◌≤◌, ◌≡◌, refl, arith, ◌==◌, ltb, if◌then◌else◌, ◌⊎◌, inl}
use diffsecp.Prelude.{ltb-false}
use diffsecp.Run.Array.{store, store_related}
use diffsecp.Run.Agree.{
  Agree, Agree-pure, Agree-call, Agree-shared, Agree-step, Agree-if, Agree-post,
}
use diffsecp.Run.Steps.{Does-put, Does-put_int}
use diffsecp.Field.Api.{FieldApi}
use diffsecp.Field.Contract.{FieldContract}
use diffsecp.Field.Target.{
  FieldReg, Regs, field_weaken, field_limit, field_record, field_query, weaken_over,
}

module _ (f g : FieldApi) (c : FieldContract f g) where
  -- Both builds track the same magnitude, at most 32, and it bounds the real ones.
  pub record RegAgree (x : FieldReg f.Fe) (y : FieldReg g.Fe) : Type 0 where
    pub same_mag : y.mag ≡ x.mag
    pub bounded : x.mag ≤ 32
    pub value : c.Value x.mag x.v y.v

  abbrev pub RegsAgree : Regs f → Regs g → Type 0
  RegsAgree reg reg' = (i : ℕ) → RegAgree (reg i) (reg' i)

  pub store_agree :
      {reg : Regs f} {reg' : Regs g} (d m : ℕ) {v : f.Fe} {v' : g.Fe}
      → RegsAgree reg reg'
      → m ≤ 32
      → c.Value m v v'
      → RegsAgree
          (store reg d (record { v = v; mag = m }))
          (store reg' d (record { v = v'; mag = m }))
  store_agree d m h b v =
      store_related RegAgree d h (record { same_mag = refl; bounded = b; value = v })

  pub field_weaken-Agree :
      (reg : Regs f) (reg' : Regs g) (x : ℕ)
      → RegsAgree reg reg'
      → Agree 0
          (λ s s'. RegsAgree s s' × ((j : ℕ) → (s j).mag ≡ (if x == j then 1 else (reg j).mag)))
          (field_weaken f reg x)
          (field_weaken g reg' x)
  unfolding field_weaken
  field_weaken-Agree reg reg' x h =
      Agree-call (c.normalize_weak (reg x).mag (reg x).v (reg' x).v (h x).bounded (h x).value)
        λ v v' r. Agree-pure _ _ (store_agree x 1 h (omega arith) r, λ j. ground arith)

  pub field_limit-Agree :
      (reg : Regs f) (reg' : Regs g) (x max : ℕ)
      → 1 ≤ max
      → RegsAgree reg reg'
      → Agree 0
          (λ s s'.
            RegsAgree s s'
            × ((j : ℕ) → ((s j).mag ≡ (reg j).mag) ⊎ ((s j).mag ≡ 1))
            × ((s x).mag ≤ max))
          (field_limit f reg x max)
          (field_limit g reg' x max)
  unfolding field_limit
  field_limit-Agree reg reg' x max pos h = rw ((h x).same_mag) (
      Agree-if (ltb max (reg x).mag)
        (λ over.
          Agree-post (field_weaken-Agree reg reg' x h)
            λ s s' q. (q.0, (λ j. ground (arith, q.1 j)), ground (arith, q.1 x)))
        (λ within. Agree-pure _ _ (h, (λ j. inl refl), ltb-false max (reg x).mag within)))

  pub weaken_over-Agree :
      (reg : Regs f) (reg' : Regs g) (d a x : ℕ)
      → RegsAgree reg reg'
      → Agree 0
          (λ s s'.
            RegsAgree s s'
            × ((j : ℕ)
                → (s j).mag ≡ (
                    if ltb 32 ((reg d).mag + (reg a).mag)
                    then (if x == j then 1 else (reg j).mag)
                    else (reg j).mag)))
          (weaken_over f reg d a x)
          (weaken_over g reg' d a x)
  unfolding weaken_over
  weaken_over-Agree reg reg' d a x h =
      rw ((h d).same_mag, (h a).same_mag)
        (Agree-if (ltb 32 ((reg d).mag + (reg a).mag))
          (λ over. rw over (field_weaken-Agree reg reg' x h))
          (λ within. rw within (Agree-pure _ _ (h, (λ j. refl)))))

  -- The value of a register, normalized: 32 bytes that both builds agree on.
  pub field_record-Agree :
      (m : ℕ) (v : f.Fe) (v' : g.Fe)
      → m ≤ 32
      → c.Value m v v'
      → Agree 32 (λ _ _. Unit {0}) (field_record f v) (field_record g v')
  unfolding field_record
  field_record-Agree m v v' b h = Agree-call (c.normalize_var m v v' b h) λ n n' hn.
      Agree-shared (c.get_b32 n n' hn)
        λ b32 len. Agree-post (Does-put b32 32 (omega (arith, len))) (λ _ _ _. tt)

  -- Seven answers, of which three are on the normalized copies.
  pub field_query-Agree :
      (a b : FieldReg f.Fe) (a' b' : FieldReg g.Fe)
      → RegAgree a a'
      → RegAgree b b'
      → Agree 28 (λ _ _. Unit {0}) (field_query f a b) (field_query g a' b')
  unfolding field_query
  field_query-Agree a b a' b' ha hb =
      Agree-shared (c.normalizes_to_zero a.mag a.v a'.v ha.bounded ha.value) λ z _.
        Agree-step 4 (Does-put_int z) refl λ _ _.
          Agree-shared (c.normalizes_to_zero_var a.mag a.v a'.v ha.bounded ha.value) λ zv _.
            Agree-step 4 (Does-put_int zv) refl λ _ _.
              Agree-shared (c.is_square_var a.mag a.v a'.v ha.bounded ha.value) λ sq _.
                Agree-step 4 (Does-put_int sq) refl λ _ _.
                  Agree-call (c.normalize_weak a.mag a.v a'.v ha.bounded ha.value) λ x x' hx.
                    Agree-call (c.normalize_weak b.mag b.v b'.v hb.bounded hb.value) λ y y' hy.
                      Agree-shared (c.equal 1 1 x y x' y' (omega arith) (omega arith) hx hy) λ eq _.
                        Agree-step 4 (Does-put_int eq) refl λ _ _.
                          Agree-call (c.normalize 1 x x' (omega arith) hx) λ x2 x2' nx.
                            Agree-call (c.normalize 1 y y' (omega arith) hy) λ y2 y2' ny.
                              Agree-shared (c.is_zero x2 x2' nx) λ iz _.
                                Agree-step 4 (Does-put_int iz) refl λ _ _.
                                  Agree-shared (c.is_odd x2 x2' nx) λ io _.
                                    Agree-step 4 (Does-put_int io) refl λ _ _.
                                      Agree-shared (c.cmp_var x2 y2 x2' y2' nx ny)
                                        λ cmp _. Agree-post (Does-put_int cmp) (λ _ _ _. tt)
