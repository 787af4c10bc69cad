-- ===== src/Group/Machine.antt =====
-- The multi-point multiplication, the switch and the loop of src/targets/group.c.
use diffsecp.Prelude.{
  ℕ, ◌+◌, ◌-◌, ◌*◌, ◌/◌, ◌%◌, ◌^◌, ℤ, List, [], ◌∷◌, Option, none, some, Bool, true, false, ◌&&◌,
}
use diffsecp.Prelude.{◌==◌, if◌then◌else◌, take, get_or, is_nonzero, bit_and, has_flag}
use diffsecp.Run.{M, pure, ◌>>=◌, ◌>>◌, lift, u8, u16, while_input, run_target, put_u8, put_int}
use diffsecp.Run.Array.{Array, store}
use diffsecp.Group.Api.{GroupApi}
use diffsecp.Group.Target.{
  group_regs, group_large_min, group_large_max, group_large_due, group_scratch_size,
  group_multi_callback, group_take_scalar, group_take_fe, group_take_nonzero_fe, group_affine,
  group_record_ge, group_record_rzr, group_query, group_ecmult_const_xonly, group_batch_affine,
}

abbrev pub group_max_ops : ℕ
group_max_ops = 32

pub data GroupOp : Type 0 where
  gen set_xo set_infinity add_var add_ge add_ge_var add_zinv_var double double_var neg : GroupOp
  rescale mul_lambda ecmult ecmult_const ecmult_const_xonly ecmult_multi batch_affine : GroupOp
  query op_count : GroupOp

-- The enumerators in their order.
abbrev pub group_ops : List GroupOp
group_ops =
    GroupOp.gen ∷ GroupOp.set_xo ∷ GroupOp.set_infinity ∷ GroupOp.add_var ∷ GroupOp.add_ge
    ∷ GroupOp.add_ge_var ∷ GroupOp.add_zinv_var ∷ GroupOp.double ∷ GroupOp.double_var ∷ GroupOp.neg
    ∷ GroupOp.rescale ∷ GroupOp.mul_lambda ∷ GroupOp.ecmult ∷ GroupOp.ecmult_const
    ∷ GroupOp.ecmult_const_xonly ∷ GroupOp.ecmult_multi ∷ GroupOp.batch_affine ∷ GroupOp.query ∷ []

abbrev pub group_op_count : ℕ
group_op_count = 18

-- `(enum group_op)op`
abbrev pub group_op : ℕ → GroupOp
group_op n = get_or group_ops n GroupOp.op_count

-- Where `flags & 2`: the count of points, the shift of the size, and `*large` afterwards.
unfoldable pub multi_count : ℕ → Bool → M (ℕ × (ℕ × Bool))
multi_count flags large =
    if has_flag flags 8 && large
    then (do
      v ← u16
      pure (group_large_min + v % (group_large_max - group_large_min + 1), (4, false)))
    else (do n ← u8; pure (n, (0, large)))

unfoldable pub multi_fail_at : ℕ → M (Option ℕ)
multi_fail_at flags = if has_flag flags 4 then (do i ← u8; pure (some i)) else pure none

abbrev pub four : {A : Type 0} → A → A → A → A → Array A
four a b c d i = if i == 0 then a else if i == 1 then b else if i == 2 then c else d

module _ (api : GroupApi) where
  -- `n`, the scratch space, `m.step`, and `*large` afterwards.
  pub record MultiPlan : Type 0 where
    pub count : ℕ
    pub scratch : Option api.Scratch
    pub step : api.scalar.Sc
    pub large : Bool

  unfoldable pub multi_plan : ℕ → Bool → api.scalar.Sc → M MultiPlan
  multi_plan flags large step0 =
      if has_flag flags 2
      then (do
        n ← multi_count flags large
        step ← group_take_scalar api
        v ← u16
        scratch ← lift (api.scratch_space_create (group_scratch_size v * 2 ^ n.1.0))
        pure (record { count = n.0; scratch = scratch; step = step; large = n.1.1 }))
      else pure (record { count = group_regs; scratch = none; step = step0; large = large })

  -- The scalar and the point of register `j`.
  unfoldable pub multi_operand : Array api.Gej → ℕ → M (api.scalar.Sc × api.Ge)
  multi_operand reg j = do sc ← group_take_scalar api; pt ← group_affine api (reg j); pure (sc, pt)

  abbrev pub given_unless : Bool → api.scalar.Sc → Option api.scalar.Sc
  given_unless true s = none
  given_unless false s = some s

  -- What it returns, `*res` and `*large`.
  unfoldable pub group_ecmult_multi : Array api.Gej → Bool → M (ℤ × (api.Gej × Bool))
  group_ecmult_multi reg large = do
    ng ← group_take_scalar api
    flags ← u8
    o0 ← multi_operand reg 0
    o1 ← multi_operand reg 1
    o2 ← multi_operand reg 2
    o3 ← multi_operand reg 3
    step0 ← lift (api.scalar.set_int 0)
    plan ← multi_plan flags large step0
    fail_at ← multi_fail_at flags
    res ← lift (
        api.ecmult_multi_var plan.scratch (given_unless (has_flag flags 1) ng)
          (group_multi_callback api (record {
            sc = four o0.0 o1.0 o2.0 o3.0;
            pt = four o0.1 o1.1 o2.1 o3.1;
            step = plan.step;
            fail_at = fail_at;
          }))
          plan.count)
    destroyed ← lift (api.scratch_space_destroy plan.scratch)
    if is_nonzero res.0
        then pure (res.0, (res.1, plan.large))
        else (do infinite ← lift api.gej_set_infinity; pure (res.0, (infinite, plan.large)))

  -- The registers and `large`.
  pub record State : Type 0 where
    pub reg : Array api.Gej
    pub large : Bool

  -- The operands of a round: `a` and `b`, and both in affine coordinates.
  pub record Operands : Type 0 where
    pub a : api.Gej
    pub b : api.Gej
    pub ga : api.Ge
    pub gb : api.Ge

  -- An addition, with the check of `rzr` where `a` is not infinity.
  unfoldable pub add_case : api.Gej → Option api.Gej → Option (api.Gej × api.field.Fe) → M api.Gej
  add_case a plain with_rzr =
      if api.gej_infinity a == 0
      then (do r ← lift with_rzr; group_record_rzr api r.0 a r.1; pure r.0)
      else lift plain

  unfoldable pub case_gen : M api.Gej
  case_gen = do s1 ← group_take_scalar api; lift (api.ecmult_gen_gej s1)

  unfoldable pub case_set_xo : api.Gej → M api.Gej
  case_set_xo res = do
    f1 ← group_take_fe api
    odd ← u8
    ge ← lift (api.ge_set_xo_var f1 (bit_and odd 1))
    put_int ge.0
    if is_nonzero ge.0 then lift (api.gej_set_ge ge.1) else pure res

  unfoldable pub case_add_zinv_var : Operands → M api.Gej
  case_add_zinv_var o = do
    f1 ← group_take_nonzero_fe api
    if api.ge_infinity o.gb == 0
        then (do
          f2 ← lift (api.field.sqr f1)
          x ← lift (api.field.mul (api.ge_x o.gb) f2)
          f3 ← lift (api.field.mul f2 f1)
          y ← lift (api.field.mul (api.ge_y o.gb) f3)
          inv ← lift (api.field.inv_var f1)
          lift (api.gej_add_zinv_var o.a (api.ge_with o.gb x y) inv))
        else lift (api.gej_add_zinv_var o.a o.gb f1)

  unfoldable pub case_double_var : api.Gej → M api.Gej
  case_double_var a = do
    r ← lift (api.gej_double_var a)
    if api.gej_infinity a == 0 then (do group_record_rzr api r.0 a r.1; pure r.0) else pure r.0

  unfoldable pub case_rescale : api.Gej → M api.Gej
  case_rescale res = do
    f1 ← group_take_nonzero_fe api
    if api.gej_infinity res == 0 then lift (api.gej_rescale res f1) else pure res

  unfoldable pub case_mul_lambda : api.Ge → M api.Gej
  case_mul_lambda ga = do ge ← lift (api.ge_mul_lambda ga); lift (api.gej_set_ge ge)

  unfoldable pub case_ecmult : api.Gej → M api.Gej
  case_ecmult a = do
    s1 ← group_take_scalar api
    s2 ← group_take_scalar api
    flags ← u8
    lift (api.ecmult a s1 (given_unless (has_flag flags 1) s2))

  unfoldable pub case_ecmult_const : api.Ge → M api.Gej
  case_ecmult_const ga = do s1 ← group_take_scalar api; lift (api.ecmult_const_gej ga s1)

  unfoldable pub case_ecmult_multi : State → M (api.Gej × Bool)
  case_ecmult_multi s = do r ← group_ecmult_multi s.reg s.large; put_int r.0; pure r.1

  -- A case that leaves `large`.
  unfoldable pub keep : Bool → M api.Gej → M (api.Gej × Bool)
  keep large m = do r ← m; pure (r, large)

  -- The switch, with `res` a copy of `*d`: what becomes of it and of `large`. The last case aborts.
  unfoldable pub group_switch : GroupOp → ℕ → State → Operands → api.Gej → M (api.Gej × Bool)
  group_switch GroupOp.gen sel s o res = keep s.large case_gen
  group_switch GroupOp.set_xo sel s o res = keep s.large (case_set_xo res)
  group_switch GroupOp.set_infinity sel s o res = keep s.large (lift api.gej_set_infinity)
  group_switch GroupOp.add_var sel s o res =
      keep s.large (add_case o.a (api.gej_add_var o.a o.b) (api.gej_add_var_rzr o.a o.b))
  group_switch GroupOp.add_ge sel s o res =
      keep s.large (if api.ge_infinity o.gb == 0 then lift (api.gej_add_ge o.a o.gb) else pure res)
  group_switch GroupOp.add_ge_var sel s o res =
      keep s.large (add_case o.a (api.gej_add_ge_var o.a o.gb) (api.gej_add_ge_var_rzr o.a o.gb))
  group_switch GroupOp.add_zinv_var sel s o res = keep s.large (case_add_zinv_var o)
  group_switch GroupOp.double sel s o res = keep s.large (lift (api.gej_double o.a))
  group_switch GroupOp.double_var sel s o res = keep s.large (case_double_var o.a)
  group_switch GroupOp.neg sel s o res = keep s.large (lift (api.gej_neg o.a))
  group_switch GroupOp.rescale sel s o res = keep s.large (case_rescale res)
  group_switch GroupOp.mul_lambda sel s o res = keep s.large (case_mul_lambda o.ga)
  group_switch GroupOp.ecmult sel s o res = keep s.large (case_ecmult o.a)
  group_switch GroupOp.ecmult_const sel s o res = keep s.large (case_ecmult_const o.ga)
  group_switch GroupOp.ecmult_const_xonly sel s o res =
      keep s.large (do group_ecmult_const_xonly api o.ga; pure res)
  group_switch GroupOp.ecmult_multi sel s o res = case_ecmult_multi s
  group_switch GroupOp.batch_affine sel s o res =
      keep s.large (do group_batch_affine api s.reg (group_regs / 2 ^ (sel / 2 ^ 6)); pure res)
  group_switch GroupOp.query sel s o res =
      keep s.large (do group_query api o.a o.b o.ga o.gb; pure res)
  group_switch GroupOp.op_count sel s o res = lift none

  -- A round of the loop.
  unfoldable pub group_step : State → M State
  group_step s = do
    n ← u8
    let op = n % group_op_count
    sel ← u8
    let d = sel % group_regs
    let a = s.reg (sel / group_regs % group_regs)
    let b = s.reg (sel / (group_regs * group_regs) % group_regs)
    ga ← group_affine api a
    gb ← group_affine api b
    put_u8 op
    r ← group_switch (group_op op) sel s (record { a = a; b = b; ga = ga; gb = gb }) (s.reg d)
    ge ← group_affine api r.0
    group_record_ge api ge
    pure (record { reg = store s.reg d r.0; large = r.1 })

  -- `target_group` after its declarations, with the input's bytes for the hash.
  unfoldable pub group_run : List ℕ → M (Unit {0})
  group_run input = do
    p ← lift api.gej_set_infinity
    while_input group_max_ops group_step (record { reg = λ i. p; large = group_large_due input })

  -- `target_group`: the length of the transcript, and what `out` holds.
  unfoldable pub target_group : List ℕ → ℕ → List ℕ → ℕ → Option (ℕ × List ℕ)
  target_group input len out size = run_target (group_run (take len input)) input len out size
