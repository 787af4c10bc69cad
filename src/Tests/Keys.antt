-- ===== src/Tests/Keys.antt =====
-- The keys target over two builds that meet its contract.
mod Builds
use diffsecp.Prelude.{ℕ, List, [], ◌∷◌, ◌++◌, replicate, arith, true, false}
use diffsecp.Run.Whole.{SameTranscript}
use diffsecp.Keys.Machine.{target_keys}
use diffsecp.Keys.Agree.{target_keys-SameTranscript}
use Builds.{build, builds_agree}
use diffsecp.Tests.Calls.{filled-IsCall}

-- Load a secret key, create its public key, sort, and run ECDH with it.
abbrev keys_input : List ℕ
keys_input = 0 ∷ 0 ∷ replicate 32 7 ++ 4 ∷ 1 ∷ 11 ∷ 0 ∷ 14 ∷ 4 ∷ []

target_keys-SameTranscript_example :
    SameTranscript 13696
      (target_keys (build false) keys_input 40 (replicate 13696 0) 13696)
      (target_keys (build true) keys_input 40 (replicate 13696 1) 13696)
target_keys-SameTranscript_example =
    target_keys-SameTranscript (build false) (build true) builds_agree keys_input 40
      (replicate 13696 0) (replicate 13696 1) 13696 (omega arith)
      (filled-IsCall keys_input 40 13696 0 (omega arith) (omega arith))
      (filled-IsCall keys_input 40 13696 1 (omega arith) (omega arith))
