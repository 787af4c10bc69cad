-- ===== src/Field/Cases.antt =====
-- Every case of the field target's switch keeps the register invariant over two builds, makes
-- only calls within libsecp's bounds, and writes at most 28 bytes.
use diffsecp.Prelude.{ℕ, ◌+◌, ◌-◌, ◌*◌, ◌/◌, ◌%◌, ◌≤◌, ◌≡◌, refl, arith, ◌==◌, ltb, if◌then◌else◌}
use diffsecp.Prelude.{ltb-false, is_nonzero, bit_and, bit_and-one, ◌≢◌}
use diffsecp.Run.{M, pure}
use diffsecp.Run.Agree.{
  Agree, Agree-pure, Agree-call, Agree-step, Agree-if, Agree-post, Agree-bind, Agree-weaken,
}
use diffsecp.Run.Steps.{Does-put_int, Does-take, Does-u8, Does-u16}
use diffsecp.Field.Api.{FieldApi}
use diffsecp.Field.Contract.{FieldContract}
use diffsecp.Field.Target
use diffsecp.Field.Target.{FieldReg, Regs, field_weaken, field_limit, weaken_over}
use diffsecp.Field.Registers.{
  RegsAgree, store_agree, field_weaken-Agree, field_limit-Agree, weaken_over-Agree,
  field_query-Agree,
}

module _ (f g : FieldApi) (c : FieldContract f g) {reg : Regs f} {reg' : Regs g}
    (h : RegsAgree f g c reg reg') where
  abbrev Keeps : M (Regs f) → M (Regs g) → Type 0
  Keeps m m' = Agree 28 (λ s s'. RegsAgree f g c s s') m m'

  set_b32_mod_agree :
      (d : ℕ) → Keeps (Target.case_set_b32_mod f reg d) (Target.case_set_b32_mod g reg' d)
  unfolding Target.case_set_b32_mod
  set_b32_mod_agree d = Agree-step 0 (Does-take 32) refl λ b32 len.
      Agree-call (c.set_b32_mod b32 len)
        λ v v' r. Agree-pure _ _ (store_agree f g c d 1 h (omega arith) r)

  set_b32_limit_agree :
      (d : ℕ) → Keeps (Target.case_set_b32_limit f reg d) (Target.case_set_b32_limit g reg' d)
  unfolding Target.case_set_b32_limit
  set_b32_limit_agree d = Agree-step 0 (Does-take 32) refl λ b32 len.
      Agree-call (c.set_b32_limit b32 len) λ r r' e. rw (← e.0) (
        Agree-step 4 (Does-put_int r.0) refl λ _ _.
          Agree-if (is_nonzero r.0)
            (λ fits. Agree-pure _ _ (store_agree f g c d 1 h (omega arith) (e.1 fits)))
            (λ over.
              Agree-call c.set_int_zero
                λ v v' z. Agree-pure _ _ (store_agree f g c d 0 h (omega arith) z)))

  add_agree : (d a : ℕ) → Keeps (Target.case_add f reg d a) (Target.case_add g reg' d a)
  unfolding Target.case_add
  add_agree d a = Agree-bind 0 (weaken_over-Agree f g c reg reg' d a d h) refl λ s s' p.
      Agree-bind 0 (weaken_over-Agree f g c s s' d a a p.0) refl λ t t' q.
        let room : (t d).mag + (t a).mag ≤ 32 =
          ground (arith, p.1 d, p.1 a, q.1 d, q.1 a, (h d).bounded, (h a).bounded) in
        Agree-call
          (c.add (t d).mag (t a).mag (t d).v (t a).v (t' d).v (t' a).v room (q.0 d).value
            (q.0 a).value)
          λ v v' r.
            rw ((q.0 d).same_mag, (q.0 a).same_mag)
              (Agree-pure _ _ (store_agree f g c d ((t d).mag + (t a).mag) q.0 room r))

  add_int_agree : (d : ℕ) → Keeps (Target.case_add_int f reg d) (Target.case_add_int g reg' d)
  unfolding Target.case_add_int
  add_int_agree d =
      Agree-bind 0 (field_limit-Agree f g c reg reg' d 31 (omega arith) h) refl λ s s' p.
        Agree-step 0 Does-u16 refl λ k _.
          Agree-call
            (c.add_int (s d).mag (k % 0x8000) (s d).v (s' d).v p.2 (omega arith) (p.0 d).value)
            λ v v' r.
              rw ((p.0 d).same_mag)
                (Agree-pure _ _ (store_agree f g c d ((s d).mag + 1) p.0 (omega (arith, p.2)) r))

  mul_agree : (d a b : ℕ) → Keeps (Target.case_mul f reg d a b) (Target.case_mul g reg' d a b)
  unfolding Target.case_mul
  mul_agree d a b =
      Agree-bind 0 (field_limit-Agree f g c reg reg' a 8 (omega arith) h) refl λ s s' p.
        Agree-bind 0 (field_limit-Agree f g c s s' b 8 (omega arith) p.0) refl λ t t' q.
          Agree-call
            (c.mul (t a).mag (t b).mag (t a).v (t b).v (t' a).v (t' b).v
              (ground (arith, p.2, q.1 a)) q.2 (q.0 a).value (q.0 b).value)
            λ v v' r. Agree-pure _ _ (store_agree f g c d 1 q.0 (omega arith) r)

  sqr_agree : (d a : ℕ) → Keeps (Target.case_sqr f reg d a) (Target.case_sqr g reg' d a)
  unfolding Target.case_sqr
  sqr_agree d a = Agree-bind 0 (field_limit-Agree f g c reg reg' a 8 (omega arith) h) refl λ s s' p.
      Agree-call (c.sqr (s a).mag (s a).v (s' a).v p.2 (p.0 a).value)
        λ v v' r. Agree-pure _ _ (store_agree f g c d 1 p.0 (omega arith) r)

  -- The multiplier that `negate` is told is at least the magnitude, and at most 31.
  negate_bound : (m k : ℕ) → m ≤ 31 → (m ≤ m + k % (32 - m)) × (m + k % (32 - m) ≤ 31)
  negate_bound m k b = grind arith

  negate_agree : (d a : ℕ) → Keeps (Target.case_negate f reg d a) (Target.case_negate g reg' d a)
  unfolding Target.case_negate
  negate_agree d a =
      Agree-bind 0 (field_limit-Agree f g c reg reg' a 31 (omega arith) h) refl λ s s' p.
        Agree-step 0 Does-u8 refl λ k _.
          let b = negate_bound (s a).mag k p.2 in
          rw ((p.0 a).same_mag) (
            Agree-call
              (c.negate_unchecked (s a).mag ((s a).mag + k % (32 - (s a).mag)) (s a).v (s' a).v b.0
                b.1 (p.0 a).value)
              λ v v' r. Agree-pure _ _ (
                store_agree f g c d ((s a).mag + k % (32 - (s a).mag) + 1) p.0 (omega (arith, b))
                  r))

  -- The guard of `mul_int` makes room for the product.
  mul_guard-Agree :
      (d m : ℕ)
      → m ≤ 32
      → Agree 0
          (λ s s'. RegsAgree f g c s s' × (m * (s d).mag ≤ 32))
          (if ltb 32 (m * (reg d).mag) then field_weaken f reg d else pure reg)
          (if ltb 32 (m * (reg' d).mag) then field_weaken g reg' d else pure reg')
  mul_guard-Agree d m b = rw ((h d).same_mag) (
      Agree-if (ltb 32 (m * (reg d).mag))
        (λ over.
          Agree-post (field_weaken-Agree f g c reg reg' d h) λ s s' q.
            (q.0, let one : (s d).mag ≡ 1 = ground (arith, q.1 d) in rw one (omega arith)))
        (λ within. Agree-pure _ _ (h, ltb-false _ _ within)))

  mul_int_agree : (d : ℕ) → Keeps (Target.case_mul_int f reg d) (Target.case_mul_int g reg' d)
  unfolding Target.case_mul_int
  mul_int_agree d = Agree-step 0 Does-u8 refl λ k _.
      Agree-bind 0 (mul_guard-Agree d (k % 33) (omega arith)) refl λ s s' p.
        Agree-call
          (c.mul_int_unchecked (s d).mag (k % 33) (s d).v (s' d).v (omega arith) p.1 (p.0 d).value)
          λ v v' r.
            rw ((p.0 d).same_mag) (
              Agree-pure _ _
                (store_agree f g c d ((s d).mag * (k % 33)) p.0 (grind (arith, p.1)) r))

  half_agree : (d : ℕ) → Keeps (Target.case_half f reg d) (Target.case_half g reg' d)
  unfolding Target.case_half
  half_agree d = Agree-bind 0 (field_limit-Agree f g c reg reg' d 31 (omega arith) h) refl λ s s' p.
      Agree-call (c.half (s d).mag (s d).v (s' d).v p.2 (p.0 d).value) λ v v' r.
        rw ((p.0 d).same_mag)
          (Agree-pure _ _ (store_agree f g c d ((s d).mag / 2 + 1) p.0 (omega (arith, p.2)) r))

  normalize_agree : (d : ℕ) → Keeps (Target.case_normalize f reg d) (Target.case_normalize g reg' d)
  unfolding Target.case_normalize
  normalize_agree d =
      Agree-call (c.normalize (reg d).mag (reg d).v (reg' d).v (h d).bounded (h d).value)
        λ v v' r. Agree-pure _ _ (store_agree f g c d 1 h (omega arith) (c.normal_value v v' r))

  normalize_weak_agree : (d : ℕ) → Keeps (field_weaken f reg d) (field_weaken g reg' d)
  normalize_weak_agree d =
      Agree-weaken (omega arith)
        (Agree-post (field_weaken-Agree f g c reg reg' d h) (λ s s' q. q.0))

  normalize_var_agree :
      (d : ℕ) → Keeps (Target.case_normalize_var f reg d) (Target.case_normalize_var g reg' d)
  unfolding Target.case_normalize_var
  normalize_var_agree d =
      Agree-call (c.normalize_var (reg d).mag (reg d).v (reg' d).v (h d).bounded (h d).value)
        λ v v' r. Agree-pure _ _ (store_agree f g c d 1 h (omega arith) (c.normal_value v v' r))

  inv_agree : (d a : ℕ) → Keeps (Target.case_inv f reg d a) (Target.case_inv g reg' d a)
  unfolding Target.case_inv
  inv_agree d a =
      Agree-call (c.inv (reg a).mag (reg a).v (reg' a).v (h a).bounded (h a).value) λ v v' r.
        rw ((h a).same_mag) (
          Agree-pure _ _
            (store_agree f g c d (if (reg a).mag == 0 then 0 else 1) h (ground arith) r))

  inv_var_agree : (d a : ℕ) → Keeps (Target.case_inv_var f reg d a) (Target.case_inv_var g reg' d a)
  unfolding Target.case_inv_var
  inv_var_agree d a =
      Agree-call (c.inv_var (reg a).mag (reg a).v (reg' a).v (h a).bounded (h a).value) λ v v' r.
        rw ((h a).same_mag) (
          Agree-pure _ _
            (store_agree f g c d (if (reg a).mag == 0 then 0 else 1) h (ground arith) r))

  sqrt_agree : (d a : ℕ) → Keeps (Target.case_sqrt f reg d a) (Target.case_sqrt g reg' d a)
  unfolding Target.case_sqrt
  sqrt_agree d a =
      Agree-bind 0 (field_limit-Agree f g c reg reg' a 8 (omega arith) h) refl λ s s' p.
        Agree-call (c.sqrt (s a).mag (s a).v (s' a).v p.2 (p.0 a).value) λ r r' e. rw (← e.0) (
          Agree-step 4 (Does-put_int r.0) refl
            λ _ _. Agree-pure _ _ (store_agree f g c d 1 p.0 (omega arith) e.1))

  cmov_agree : (d a : ℕ) → Keeps (Target.case_cmov f reg d a) (Target.case_cmov g reg' d a)
  unfolding Target.case_cmov
  cmov_agree d a = Agree-step 0 Does-u8 refl λ k _.
      let m = if ltb (reg a).mag (reg d).mag then (reg d).mag else (reg a).mag in
      let flag : bit_and k 1 ≤ 1 = omega (arith, bit_and-one k) in
      let bound : ((reg d).mag ≤ m) × ((reg a).mag ≤ m) × (m ≤ 32) =
        ground (arith, (h d).bounded, (h a).bounded) in
      Agree-call
        (c.cmov (reg d).mag (reg a).mag m (bit_and k 1) (reg d).v (reg a).v (reg' d).v (reg' a).v
          bound.0 bound.1 bound.2 flag (h d).value (h a).value)
        λ v v' r.
          rw ((h d).same_mag, (h a).same_mag) (Agree-pure _ _ (store_agree f g c d m h bound.2 r))

  storage_agree : (d : ℕ) → Keeps (Target.case_storage f reg d) (Target.case_storage g reg' d)
  unfolding Target.case_storage
  storage_agree d =
      Agree-call (c.normalize (reg d).mag (reg d).v (reg' d).v (h d).bounded (h d).value) λ n n' hn.
        Agree-call (c.to_storage n n' hn) λ s s' hs.
          Agree-call (c.from_storage s s' hs)
            λ v v' r. Agree-pure _ _ (store_agree f g c d 1 h (omega arith) (c.normal_value v v' r))

  query_agree : (a b : ℕ) → Keeps (Target.case_query f reg a b) (Target.case_query g reg' a b)
  unfolding Target.case_query
  query_agree a b =
      Agree-bind 28 (field_query-Agree f g c (reg a) (reg b) (reg' a) (reg' b) (h a) (h b)) refl
        λ _ _ _. Agree-pure reg reg' h

  -- The whole switch: only `FIELD_OP_COUNT` aborts.
  pub field_switch_agree :
      (op : Target.FieldOp) (d a b : ℕ)
      → op ≢ Target.FieldOp.op_count
      → Keeps (Target.field_switch f op reg d a b) (Target.field_switch g op reg' d a b)
  unfolding Target.field_switch
  field_switch_agree Target.FieldOp.set_b32_mod d a b ne = set_b32_mod_agree d
  field_switch_agree Target.FieldOp.set_b32_limit d a b ne = set_b32_limit_agree d
  field_switch_agree Target.FieldOp.add d a b ne = add_agree d a
  field_switch_agree Target.FieldOp.add_int d a b ne = add_int_agree d
  field_switch_agree Target.FieldOp.mul d a b ne = mul_agree d a b
  field_switch_agree Target.FieldOp.sqr d a b ne = sqr_agree d a
  field_switch_agree Target.FieldOp.negate d a b ne = negate_agree d a
  field_switch_agree Target.FieldOp.mul_int d a b ne = mul_int_agree d
  field_switch_agree Target.FieldOp.half d a b ne = half_agree d
  field_switch_agree Target.FieldOp.normalize d a b ne = normalize_agree d
  field_switch_agree Target.FieldOp.normalize_weak d a b ne = normalize_weak_agree d
  field_switch_agree Target.FieldOp.normalize_var d a b ne = normalize_var_agree d
  field_switch_agree Target.FieldOp.inv d a b ne = inv_agree d a
  field_switch_agree Target.FieldOp.inv_var d a b ne = inv_var_agree d a
  field_switch_agree Target.FieldOp.sqrt d a b ne = sqrt_agree d a
  field_switch_agree Target.FieldOp.cmov d a b ne = cmov_agree d a
  field_switch_agree Target.FieldOp.storage d a b ne = storage_agree d
  field_switch_agree Target.FieldOp.query d a b ne = query_agree a b
  field_switch_agree Target.FieldOp.op_count d a b ne = absurd (ne refl)
