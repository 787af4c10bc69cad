-- ===== src/Tests/Scalar.antt =====
-- The scalar target over the builds of a concrete scalar module with and without checks.
pub mod Builds
use diffsecp.Prelude.{ℕ, List, [], ◌∷◌, ◌++◌, replicate, arith, true, false}
use diffsecp.Run.Whole.{SameTranscript}
use diffsecp.Scalar.Target.{target_scalar}
use diffsecp.Scalar.Agree.{target_scalar-SameTranscript}
use Builds.{build, builds_agree}
use diffsecp.Tests.Calls.{filled-IsCall}

-- Set register 1 to 1, add it to register 0, negate that into 0, look at its bits.
abbrev scalar_input : List ℕ
scalar_input = 0 ∷ 1 ∷ replicate 31 0 ++ 1 ∷ 2 ∷ 4 ∷ 4 ∷ 0 ∷ 13 ∷ 0 ∷ 7 ∷ 0 ∷ 9 ∷ 31 ∷ 2 ∷ 1 ∷ []

target_scalar-SameTranscript_example :
    SameTranscript 66560
      (target_scalar (build false) scalar_input 46 (replicate 66560 0) 66560)
      (target_scalar (build true) scalar_input 46 (replicate 66560 1) 66560)
target_scalar-SameTranscript_example =
    target_scalar-SameTranscript (build false) (build true) builds_agree scalar_input 46
      (replicate 66560 0) (replicate 66560 1) 66560 (omega arith)
      (filled-IsCall scalar_input 46 66560 0 (omega arith) (omega arith))
      (filled-IsCall scalar_input 46 66560 1 (omega arith) (omega arith))
