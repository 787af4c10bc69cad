-- ===== src/Tests/Ellswift.antt =====
-- The ElligatorSwift target over two builds that meet its contract.
mod Builds
use diffsecp.Prelude.{ℕ, List, [], ◌∷◌, ◌++◌, replicate, arith}
use diffsecp.Run.Whole.{SameTranscript}
use diffsecp.Ellswift.Target.{target_ellswift}
use diffsecp.Ellswift.Agree.{target_ellswift-SameTranscript}
use Builds.{release_build, verify_build, builds_agree}
use diffsecp.Tests.Calls.{filled-IsCall}

-- All of the flags but the fuzzed peer, and a u for which r is 0.
abbrev ellswift_input : List ℕ
ellswift_input = 123 ∷ replicate 288 5 ++ 17 ∷ replicate 32 3

target_ellswift-SameTranscript_example :
    SameTranscript 462
      (target_ellswift release_build ellswift_input 322 (replicate 500 0) 500)
      (target_ellswift verify_build ellswift_input 322 (replicate 500 1) 500)
target_ellswift-SameTranscript_example =
    target_ellswift-SameTranscript release_build verify_build builds_agree ellswift_input 322
      (replicate 500 0) (replicate 500 1) 500 (omega arith)
      (filled-IsCall ellswift_input 322 500 0 (omega arith) (omega arith))
      (filled-IsCall ellswift_input 322 500 1 (omega arith) (omega arith))
