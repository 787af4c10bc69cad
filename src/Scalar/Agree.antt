-- ===== src/Scalar/Agree.antt =====
-- The scalar target as a whole: no abort, a bounded transcript, and builds that agree.
use diffsecp.Prelude.{ℕ, ◌*◌, ◌%◌, ◌/◌, ◌≤◌, ◌<◌, List, refl, ◌≢◌, arith, All-get_or}
use diffsecp.Run.Agree.{Agree, Agree-pure, Agree-call, Agree-step, Agree-bind}
use diffsecp.Run.Steps.{Does-u8, Does-put_u8}
use diffsecp.Run.Loop.{while_input-Agree}
use diffsecp.Run.Whole.{IsCall, SameTranscript, run_target-Agree}
use diffsecp.Scalar.Api.{ScalarApi}
use diffsecp.Scalar.Contract.{ScalarContract}
use diffsecp.Scalar.Target.{
  ScalarOp, Regs, scalar_op, scalar_ops, scalar_step, scalar_run, target_scalar,
}
use diffsecp.Scalar.Cases.{RegsAgree, scalar_record-Agree, scalar_switch_agree}

abbrev IsCase : ScalarOp → Type 0
IsCase op = op ≢ ScalarOp.op_count

-- A reduced opcode is never `SCALAR_OP_COUNT`.
scalar_op-IsCase : (n : ℕ) → n < 14 → IsCase (scalar_op n)
scalar_op-IsCase n h = All-get_or IsCase scalar_ops n ScalarOp.op_count h (ground arith)

module _ (f g : ScalarApi) (c : ScalarContract f g) where
  scalar_step-Agree :
      (reg : Regs f) (reg' : Regs g)
      → RegsAgree f g c reg reg'
      → Agree 65 (λ s s'. RegsAgree f g c s s') (scalar_step f reg) (scalar_step g reg')
  unfolding scalar_step
  scalar_step-Agree reg reg' h = Agree-step 0 Does-u8 refl λ n _. Agree-step 0 Does-u8 refl λ sel _.
      Agree-step 1 (Does-put_u8 (n % 14)) refl λ _ _.
        Agree-bind 32
          (scalar_switch_agree f g c h (scalar_op (n % 14)) (sel % 4) ((sel / 16) % 4)
            (reg ((sel / 4) % 4)) (reg ((sel / 16) % 4)) (reg' ((sel / 4) % 4))
            (reg' ((sel / 16) % 4)) (scalar_op-IsCase (n % 14) (omega arith)) (h ((sel / 4) % 4))
            (h ((sel / 16) % 4)))
          refl
          λ s s' k.
            Agree-bind 32 (scalar_record-Agree f g c (s (sel % 4)) (s' (sel % 4)) (k (sel % 4)))
              refl λ _ _ _. Agree-pure s s' k

  scalar_run-Agree : Agree (1024 * 65) (λ _ _. Unit {0}) (scalar_run f) (scalar_run g)
  unfolding scalar_run
  scalar_run-Agree = Agree-call c.set_int_zero λ v v' z.
      while_input-Agree (RegsAgree f g c) 65 (scalar_step f) (scalar_step g) scalar_step-Agree 1024
        (1024 * 65) _ _ (omega arith) (λ i. z)

  -- For two builds of libsecp that keep to the documented contract of the scalar functions, on every
  -- input and with buffers of at least 66560 bytes, whatever these hold: `target_scalar` returns over
  -- both builds, so that no call leaves libsecp's ranges of bit positions, shifts and flags and the
  -- transcript does not overflow; and both transcripts have the same length, at most 66560, and the
  -- same bytes.
  pub target_scalar-SameTranscript :
      (input : List ℕ) (len : ℕ) (out out' : List ℕ) (size : ℕ)
      → 66560 ≤ size
      → IsCall input len out size
      → IsCall input len out' size
      → SameTranscript 66560
          (target_scalar f input len out size)
          (target_scalar g input len out' size)
  unfolding target_scalar
  target_scalar-SameTranscript input len out out' size room call call' =
      run_target-Agree 66560 (scalar_run f) (scalar_run g) input len out out' size scalar_run-Agree
        room call call'
