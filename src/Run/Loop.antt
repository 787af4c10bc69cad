-- ===== src/Run/Loop.antt =====
-- The loop that the register machines of src/targets share.
use diffsecp.Prelude.{ℕ, zero, suc, ◌*◌, ◌≤◌, arith}
use diffsecp.Run.{M, while_input}
use diffsecp.Run.Agree.{Agree, Agree-pure, Agree-bind_le, Agree-if}
use diffsecp.Run.Steps.{Does-is_empty}

-- Rounds that keep the registers related and write at most `k` bytes each make a loop that returns
-- and writes at most `k` bytes for each round.
pub while_input-Agree :
    {S S' : Type 0} (R : S → S' → Type 0) (k : ℕ) (step : S → M S) (step' : S' → M S')
    → ((s : S) (s' : S') → R s s' → Agree k R (step s) (step' s'))
    → (left n : ℕ) (s : S) (s' : S') → left * k ≤ n
    → R s s'
    → Agree n (λ _ _. Unit {0}) (while_input left step s) (while_input left step' s')
unfolding while_input
while_input-Agree R k step step' keep zero n s s' fits r = Agree-pure tt tt tt
while_input-Agree R k step step' keep (suc left) n s s' fits r =
    Agree-bind_le 0 {k = n} (omega arith) Does-is_empty λ done done' e. rw (← e.0) (
      Agree-if done (λ _. Agree-pure tt tt tt)
        (λ _.
          Agree-bind_le k {k = left * k} (omega arith) (keep s s' r)
            λ t t' q. while_input-Agree R k step step' keep left (left * k) t t' (omega arith) q))
