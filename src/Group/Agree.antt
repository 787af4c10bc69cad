-- ===== src/Group/Agree.antt =====
-- The group target as a whole: no abort, a bounded transcript, and builds that agree.
use diffsecp.Prelude.{ℕ, ◌*◌, ◌/◌, ◌%◌, ◌≤◌, List, refl, arith, take, ◌≢◌, All-get_or}
use diffsecp.Run.Agree.{Agree, Agree-pure, Agree-call, Agree-step, Agree-bind}
use diffsecp.Run.Array.{store_related}
use diffsecp.Run.Steps.{Does-u8, Does-put_u8}
use diffsecp.Run.Loop.{while_input-Agree}
use diffsecp.Run.Whole.{IsCall, SameTranscript, run_target-Agree}
use diffsecp.Group.Api.{GroupApi}
use diffsecp.Group.Contract.{GroupContract}
use diffsecp.Group.Target.{group_regs}
use diffsecp.Group.Machine.{
  GroupOp, group_ops, group_op, group_op_count, group_max_ops, State, group_step, group_run,
  target_group,
}
use diffsecp.Group.Points.{affine-Agree, record_ge-Agree}
use diffsecp.Group.Additions.{SameState}
use diffsecp.Group.Cases.{switch-Agree}

-- No number that an input can give is the last enumerator.
real_op : (n : ℕ) → group_op (n % group_op_count) ≢ GroupOp.op_count
real_op n =
    All-get_or (λ op. op ≢ GroupOp.op_count) group_ops (n % group_op_count) GroupOp.op_count
      (omega arith) (ground arith)

module _ (f g : GroupApi) (c : GroupContract f g) where
  step-Agree :
      (s : State f) (s' : State g)
      → SameState f g c s s'
      → Agree 586 (SameState f g c) (group_step f s) (group_step g s')
  unfolding group_step
  step-Agree s s' h = Agree-step 0 Does-u8 refl λ n _. Agree-step 0 Does-u8 refl λ sel _.
      Agree-bind 0 (affine-Agree f g c _ _ (h.reg (sel / group_regs % group_regs))) refl
        λ ga ga' hga.
          Agree-bind 0
            (affine-Agree f g c _ _ (h.reg (sel / (group_regs * group_regs) % group_regs))) refl
            λ gb gb' hgb. Agree-step 1 (Does-put_u8 (n % group_op_count)) refl λ _ _.
              Agree-bind 520
                (switch-Agree f g c (group_op (n % group_op_count)) sel s s' _ _ _ _ (real_op n) h
                  (record {
                    a = h.reg (sel / group_regs % group_regs);
                    b = h.reg (sel / (group_regs * group_regs) % group_regs);
                    ga = hga;
                    gb = hgb;
                  })
                  (h.reg (sel % group_regs)))
                refl
                λ r r' hr. Agree-bind 0 (affine-Agree f g c r.0 r'.0 hr.0) refl λ p p' hp.
                  Agree-bind 65 (record_ge-Agree f g c p p' hp) refl λ _ _ _.
                    Agree-pure _ _ (record {
                      reg = store_related c.SameGej (sel % group_regs) h.reg hr.0;
                      large = hr.1;
                    })

  group_run-Agree :
      (input : List ℕ) → Agree 18752 (λ _ _. Unit {0}) (group_run f input) (group_run g input)
  unfolding group_run
  group_run-Agree input = Agree-call c.gej_set_infinity λ p p' hp.
      while_input-Agree (SameState f g c) 586 (group_step f) (group_step g) step-Agree group_max_ops
        18752 _ _ (omega arith) (record { reg = λ i. hp; large = refl })

  -- For two builds of libsecp that compute the same points, whatever their Jacobian coordinates, on
  -- every input and with buffers of at least 18752 bytes, whatever these hold: `target_group` returns
  -- over both builds, so that no call is an illegal one (no point at infinity goes where libsecp
  -- rejects it, no zero goes where it needs another element, and field elements stay within their
  -- magnitudes) and the transcript does not overflow; and both transcripts have the same length, at
  -- most 18752, and the same bytes.
  pub target_group-SameTranscript :
      (input : List ℕ) (len : ℕ) (out out' : List ℕ) (size : ℕ)
      → 18752 ≤ size
      → IsCall input len out size
      → IsCall input len out' size
      → SameTranscript 18752
          (target_group f input len out size)
          (target_group g input len out' size)
  unfolding target_group
  target_group-SameTranscript input len out out' size room call call' =
      run_target-Agree 18752 (group_run f (take len input)) (group_run g (take len input)) input len
        out out' size (group_run-Agree (take len input)) room call call'
