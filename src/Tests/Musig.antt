-- ===== src/Tests/Musig.antt =====
-- The MuSig2 target over two builds that meet its contract.
mod Builds
use diffsecp.Prelude.{ℕ, List, [], ◌∷◌, ◌++◌, replicate, arith}
use diffsecp.Run.Whole.{SameTranscript}
use diffsecp.Musig.Machine.{target_musig}
use diffsecp.Musig.Agree.{target_musig-SameTranscript}
use Builds.{release_build, verify_build, builds_agree}
use diffsecp.Tests.Calls.{filled-IsCall}

-- Two signers with every flag, which cancels the x-only tweak.
abbrev musig_input : List ℕ
musig_input = 255 ∷ 1 ∷ 1 ∷ replicate 420 3 ++ 2 ∷ []

target_musig-SameTranscript_example :
    SameTranscript 671
      (target_musig release_build musig_input 424 (replicate 700 0) 700)
      (target_musig verify_build musig_input 424 (replicate 700 1) 700)
target_musig-SameTranscript_example =
    target_musig-SameTranscript release_build verify_build builds_agree musig_input 424
      (replicate 700 0) (replicate 700 1) 700 (omega arith)
      (filled-IsCall musig_input 424 700 0 (omega arith) (omega arith))
      (filled-IsCall musig_input 424 700 1 (omega arith) (omega arith))
