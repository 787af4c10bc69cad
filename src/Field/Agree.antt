-- ===== src/Field/Agree.antt =====
-- The field target as a whole: no abort, a bounded transcript, and builds that agree.
use diffsecp.Prelude.{ℕ, ◌*◌, ◌%◌, ◌/◌, ◌≤◌, ◌<◌, List, refl, ◌≢◌, arith, All-get_or}
use diffsecp.Run.Agree.{Agree, Agree-pure, Agree-call, Agree-step, Agree-bind}
use diffsecp.Run.Steps.{Does-u8, Does-put_u8}
use diffsecp.Run.Loop.{while_input-Agree}
use diffsecp.Run.Whole.{IsCall, SameTranscript, run_target-Agree}
use diffsecp.Field.Api.{FieldApi}
use diffsecp.Field.Contract.{FieldContract}
use diffsecp.Field.Target.{FieldOp, Regs, field_op, field_ops, field_step, field_run, target_field}
use diffsecp.Field.Registers.{RegsAgree, field_record-Agree}
use diffsecp.Field.Cases.{field_switch_agree}

abbrev IsCase : FieldOp → Type 0
IsCase op = op ≢ FieldOp.op_count

-- A reduced opcode is never `FIELD_OP_COUNT`.
field_op-IsCase : (n : ℕ) → n < 18 → IsCase (field_op n)
field_op-IsCase n h = All-get_or IsCase field_ops n FieldOp.op_count h (ground arith)

module _ (f g : FieldApi) (c : FieldContract f g) where
  pub field_step-Agree :
      (reg : Regs f) (reg' : Regs g)
      → RegsAgree f g c reg reg'
      → Agree 61 (λ s s'. RegsAgree f g c s s') (field_step f reg) (field_step g reg')
  unfolding field_step
  field_step-Agree reg reg' h = Agree-step 0 Does-u8 refl λ n _. Agree-step 0 Does-u8 refl λ sel _.
      Agree-step 1 (Does-put_u8 (n % 18)) refl λ _ _.
        Agree-bind 28
          (field_switch_agree f g c h (field_op (n % 18)) (sel % 4) ((sel / 4) % 4) ((sel / 16) % 4)
            (field_op-IsCase (n % 18) (omega arith)))
          refl
          λ s s' k.
            Agree-bind 32
              (field_record-Agree f g c (s (sel % 4)).mag _ _ (k (sel % 4)).bounded
                (k (sel % 4)).value)
              refl λ _ _ _. Agree-pure s s' k

  field_run-Agree : Agree (1024 * 61) (λ _ _. Unit {0}) (field_run f) (field_run g)
  unfolding field_run
  field_run-Agree = Agree-call c.set_int_zero λ v v' z.
      while_input-Agree (RegsAgree f g c) 61 (field_step f) (field_step g) field_step-Agree 1024
        (1024 * 61) _ _ (omega arith)
        (λ i. record { same_mag = refl; bounded = omega arith; value = z })

  -- For two builds of libsecp that keep to the documented contract of the field functions, on every
  -- input and with buffers of at least 62464 bytes, whatever these hold: `target_field` returns over
  -- both builds, so that no call leaves libsecp's bounds on magnitudes and the transcript does not
  -- overflow; and both transcripts have the same length, at most 62464, and the same bytes.
  pub target_field-SameTranscript :
      (input : List ℕ) (len : ℕ) (out out' : List ℕ) (size : ℕ)
      → 62464 ≤ size
      → IsCall input len out size
      → IsCall input len out' size
      → SameTranscript 62464
          (target_field f input len out size)
          (target_field g input len out' size)
  unfolding target_field
  target_field-SameTranscript input len out out' size room call call' =
      run_target-Agree 62464 (field_run f) (field_run g) input len out out' size field_run-Agree
        room call call'
