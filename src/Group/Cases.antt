-- ===== src/Group/Cases.antt =====
-- The other cases of the group target's switch, and the switch: every case leaves the same point in both builds, makes only calls that
-- libsecp allows, and writes at most 520 bytes.
use diffsecp.Prelude.{ℕ, ◌/◌, ◌^◌, ◌≤◌, Option, ◌≡◌, refl, arith, ◌==◌, has_flag}
use native.Mathlib.Nat.{div-le_self}
use diffsecp.Run.{M, pure, lift, ◌>>=◌}
use diffsecp.Run.Agree.{
  Agree, Both, Agree-pure, Agree-call, Agree-lift, Agree-step, Agree-if, Agree-bind, Agree-weaken,
}
use diffsecp.Run.Steps.{Does-u8, Does-put_int}
use diffsecp.Group.Api.{GroupApi}
use diffsecp.Group.Contract.{GroupContract}
use diffsecp.Group.Target.{group_regs, group_take_scalar}
use diffsecp.Group.Machine.{
  GroupOp, State, Operands, case_gen, case_double_var, case_rescale, case_mul_lambda, case_ecmult,
  case_ecmult_const, case_ecmult_multi, group_switch,
}
use diffsecp.Group.Points.{take_scalar-Agree, take_nonzero_fe-Agree, record_rzr-Agree, query-Agree}
use diffsecp.Group.Records.{ecmult_const_xonly-Agree, batch_affine-Agree}
use diffsecp.Group.Multi.{given_unless_same, ecmult_multi-Agree}
use diffsecp.Group.Additions.{
  SameState, SameOperands, SameCase, keep-Agree, add_case-Agree, set_xo-Agree, add_zinv_var-Agree,
}

module _ (f g : GroupApi) (c : GroupContract f g) where
  double_var-Agree :
      (a : f.Gej) (a' : g.Gej)
      → c.SameGej a a'
      → Agree 4 c.SameGej (case_double_var f a) (case_double_var g a')
  unfolding case_double_var
  double_var-Agree a a' h = rw (← c.gej_infinity a a' h) (
      Agree-call (c.gej_double_var a a' h) λ s s' hs.
        Agree-if (f.gej_infinity a == 0)
          (λ e.
            Agree-bind 4 (record_rzr-Agree f g c s a s' a' hs.0 (hs.1 (ground (arith, e)))) refl
              λ _ _ _. Agree-pure _ _ hs.0)
          (λ _. Agree-pure _ _ hs.0))

  rescale-Agree :
      (res : f.Gej) (res' : g.Gej)
      → c.SameGej res res'
      → Agree 0 c.SameGej (case_rescale f res) (case_rescale g res')
  unfolding case_rescale
  rescale-Agree res res' h = rw (← c.gej_infinity res res' h) (
      Agree-bind 0 (take_nonzero_fe-Agree f g c) refl λ z z' hz.
        Agree-if (f.gej_infinity res == 0)
          (λ e. Agree-lift (c.gej_rescale res res' z z' (ground (arith, e)) h hz.0 hz.1))
          (λ _. Agree-pure _ _ h))

  ecmult-Agree :
      (a : f.Gej) (a' : g.Gej)
      → c.SameGej a a'
      → Agree 0 c.SameGej (case_ecmult f a) (case_ecmult g a')
  unfolding case_ecmult
  ecmult-Agree a a' h = Agree-bind 0 (take_scalar-Agree f g c) refl λ s s' hs.
      Agree-bind 0 (take_scalar-Agree f g c) refl λ t t' ht. Agree-step 0 Does-u8 refl λ flags _.
        Agree-lift
          (c.ecmult a a' s s' _ _ h hs (given_unless_same f g c (has_flag flags 1) t t' ht))

  scalar_case :
      (k : f.scalar.Sc → Option f.Gej) (k' : g.scalar.Sc → Option g.Gej)
      → ((s : f.scalar.Sc) (s' : g.scalar.Sc) → c.scalar.Value s s' → Both c.SameGej (k s) (k' s'))
      → Agree 0 c.SameGej
          (do s ← group_take_scalar f; lift (k s))
          (do s ← group_take_scalar g; lift (k' s))
  scalar_case k k' h = Agree-bind 0 (take_scalar-Agree f g c) refl λ s s' hs. Agree-lift (h s s' hs)

  multi-Agree :
      (s : State f) (s' : State g)
      → SameState f g c s s'
      → Agree 520 (SameCase f g c) (case_ecmult_multi f s) (case_ecmult_multi g s')
  unfolding case_ecmult_multi
  multi-Agree s s' h = rw (← h.large) (
      Agree-bind 0 (ecmult_multi-Agree f g c s.reg s'.reg s.large h.reg) refl
        λ r r' e. rw (← e.0) (Agree-step 4 (Does-put_int r.0) refl λ _ _. Agree-pure _ _ e.1))

  -- A case that records and leaves the register.
  recording :
      (n : ℕ) (m : M (Unit {0})) (m' : M (Unit {0})) (res : f.Gej) (res' : g.Gej)
      → n ≤ 520
      → c.SameGej res res'
      → Agree n (λ _ _. Unit {0}) m m'
      → Agree 520 c.SameGej (m >>= λ _. pure res) (m' >>= λ _. pure res')
  recording n m m' res res' b h e = Agree-bind 520 (Agree-weaken b e) refl λ _ _ _. Agree-pure _ _ h

  pub switch-Agree :
      (op : GroupOp) (sel : ℕ) (s : State f) (s' : State g) (o : Operands f) (o' : Operands g)
      (res : f.Gej) (res' : g.Gej)
      → (op ≡ GroupOp.op_count → ⊥)
      → SameState f g c s s'
      → SameOperands f g c o o'
      → c.SameGej res res'
      → Agree 520
          (SameCase f g c)
          (group_switch f op sel s o res)
          (group_switch g op sel s' o' res')
  unfolding group_switch case_gen case_mul_lambda case_ecmult_const
  switch-Agree GroupOp.gen sel s s' o o' res res' real hs ho hr = rw (← hs.large) (
      (keep-Agree f g c) 0 s.large _ _ (omega arith)
        (scalar_case f.ecmult_gen_gej g.ecmult_gen_gej c.ecmult_gen_gej))
  switch-Agree GroupOp.set_xo sel s s' o o' res res' real hs ho hr =
      rw (← hs.large)
        (keep-Agree f g c 4 s.large _ _ (omega arith) (set_xo-Agree f g c res res' hr))
  switch-Agree GroupOp.set_infinity sel s s' o o' res res' real hs ho hr =
      rw (← hs.large) (keep-Agree f g c 0 s.large _ _ (omega arith) (Agree-lift c.gej_set_infinity))
  switch-Agree GroupOp.add_var sel s s' o o' res res' real hs ho hr = rw (← hs.large) (
      (keep-Agree f g c) 4 s.large _ _ (omega arith) (
        (add_case-Agree f g c) o.a o'.a _ _ _ _ ho.a (c.gej_add_var o.a o.b o'.a o'.b ho.a ho.b)
          (λ e. c.gej_add_var_rzr o.a o.b o'.a o'.b e ho.a ho.b)))
  switch-Agree GroupOp.add_ge sel s s' o o' res res' real hs ho hr =
      rw (← hs.large, ← (c.members o.gb o'.gb ho.gb).infinity)
        (keep-Agree f g c 0 s.large _ _ (omega arith) (
          Agree-if (f.ge_infinity o.gb == 0)
            (λ e. Agree-lift (c.gej_add_ge o.a o.gb o'.a o'.gb (ground (arith, e)) ho.a ho.gb))
            (λ _. Agree-pure _ _ hr)))
  switch-Agree GroupOp.add_ge_var sel s s' o o' res res' real hs ho hr = rw (← hs.large) (
      (keep-Agree f g c) 4 s.large _ _ (omega arith) (
        (add_case-Agree f g c) o.a o'.a _ _ _ _ ho.a
          (c.gej_add_ge_var o.a o.gb o'.a o'.gb ho.a ho.gb)
          (λ e. c.gej_add_ge_var_rzr o.a o.gb o'.a o'.gb e ho.a ho.gb)))
  switch-Agree GroupOp.add_zinv_var sel s s' o o' res res' real hs ho hr =
      rw (← hs.large)
        (keep-Agree f g c 0 s.large _ _ (omega arith) (add_zinv_var-Agree f g c o o' ho))
  switch-Agree GroupOp.double sel s s' o o' res res' real hs ho hr =
      rw (← hs.large)
        (keep-Agree f g c 0 s.large _ _ (omega arith) (Agree-lift (c.gej_double o.a o'.a ho.a)))
  switch-Agree GroupOp.double_var sel s s' o o' res res' real hs ho hr =
      rw (← hs.large)
        (keep-Agree f g c 4 s.large _ _ (omega arith) (double_var-Agree o.a o'.a ho.a))
  switch-Agree GroupOp.neg sel s s' o o' res res' real hs ho hr =
      rw (← hs.large)
        (keep-Agree f g c 0 s.large _ _ (omega arith) (Agree-lift (c.gej_neg o.a o'.a ho.a)))
  switch-Agree GroupOp.rescale sel s s' o o' res res' real hs ho hr =
      rw (← hs.large) (keep-Agree f g c 0 s.large _ _ (omega arith) (rescale-Agree res res' hr))
  switch-Agree GroupOp.mul_lambda sel s s' o o' res res' real hs ho hr = rw (← hs.large) (
      (keep-Agree f g c) 0 s.large _ _ (omega arith) (
        Agree-call (c.ge_mul_lambda o.ga o'.ga ho.ga) λ p p' hp. Agree-lift (c.gej_set_ge p p' hp)))
  switch-Agree GroupOp.ecmult sel s s' o o' res res' real hs ho hr =
      rw (← hs.large) (keep-Agree f g c 0 s.large _ _ (omega arith) (ecmult-Agree o.a o'.a ho.a))
  switch-Agree GroupOp.ecmult_const sel s s' o o' res res' real hs ho hr = rw (← hs.large) (
      (keep-Agree f g c) 0 s.large _ _ (omega arith) (
        scalar_case (f.ecmult_const_gej o.ga) (g.ecmult_const_gej o'.ga)
          (λ t t' ht. c.ecmult_const_gej o.ga o'.ga t t' ho.ga ht)))
  switch-Agree GroupOp.ecmult_const_xonly sel s s' o o' res res' real hs ho hr = rw (← hs.large) (
      (keep-Agree f g c) 520 s.large _ _ (omega arith) (
        recording 36 _ _ res res' (omega arith) hr
          (ecmult_const_xonly-Agree f g c o.ga o'.ga ho.ga)))
  switch-Agree GroupOp.ecmult_multi sel s s' o o' res res' real hs ho hr = multi-Agree s s' hs
  switch-Agree GroupOp.batch_affine sel s s' o o' res res' real hs ho hr = rw (← hs.large) (
      (keep-Agree f g c) 520 s.large _ _ (omega arith) (
        recording 520 _ _ res res' (omega arith) hr (
          batch_affine-Agree f g c s.reg s'.reg (group_regs / 2 ^ (sel / 2 ^ 6))
            (div-le_self 4 (2 ^ (sel / 2 ^ 6))) hs.reg)))
  switch-Agree GroupOp.query sel s s' o o' res res' real hs ho hr = rw (← hs.large) (
      (keep-Agree f g c) 520 s.large _ _ (omega arith) (
        recording 32 _ _ res res' (omega arith) hr
          (query-Agree f g c o.a o.b o.ga o.gb o'.a o'.b o'.ga o'.gb ho.a ho.b ho.ga ho.gb)))
  switch-Agree GroupOp.op_count sel s s' o o' res res' real hs ho hr = absurd (real refl)
