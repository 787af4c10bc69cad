-- ===== src/Tests/Recovery.antt =====
-- The recovery target over two builds that meet its contract.
mod Builds
use diffsecp.Prelude.{ℕ, List, [], ◌∷◌, ◌++◌, replicate, arith, true, false}
use diffsecp.Run.Whole.{SameTranscript}
use diffsecp.Recovery.Target.{target_recovery}
use diffsecp.Recovery.Agree.{target_recovery-SameTranscript}
use Builds.{build, builds_agree}
use diffsecp.Tests.Calls.{filled-IsCall}

-- Sign with extra data for the nonce, then change a byte of the message, and the id.
abbrev recovery_input : List ℕ
recovery_input = 3 ∷ replicate 96 5 ++ 2 ∷ 1 ∷ 40 ∷ 255 ∷ 2 ∷ 0 ∷ 2 ∷ []

target_recovery-SameTranscript_example :
    SameTranscript 322
      (target_recovery (build false) recovery_input 104 (replicate 400 0) 400)
      (target_recovery (build true) recovery_input 104 (replicate 400 1) 400)
target_recovery-SameTranscript_example =
    target_recovery-SameTranscript (build false) (build true) builds_agree recovery_input 104
      (replicate 400 0) (replicate 400 1) 400 (omega arith)
      (filled-IsCall recovery_input 104 400 0 (omega arith) (omega arith))
      (filled-IsCall recovery_input 104 400 1 (omega arith) (omega arith))
