-- ===== src/Tests/Group.antt =====
-- The group target over two builds that meet its contract.
mod Builds
use diffsecp.Prelude.{◌≡◌, ◌≢◌, ◌↔◌, ◌*◌, ◌^◌, ◌<◌, true}
use diffsecp.Group.Target.{large_hash, group_large_due, group_large_odds}
use diffsecp.Group.Due.{group_large_due-large_hash}
use diffsecp.Prelude.{ℕ, List, [], ◌∷◌, ◌++◌, replicate, arith}
use diffsecp.Run.Whole.{SameTranscript}
use diffsecp.Group.Machine.{target_group}
use diffsecp.Group.Agree.{target_group-SameTranscript}
use Builds.{release_build, verify_build, builds_agree}
use diffsecp.Tests.Calls.{filled-IsCall}

-- Load a multiple of G, add it to itself, take all four registers to affine, and multiply.
abbrev group_input : List ℕ
group_input = 0 ∷ 1 ∷ replicate 32 7 ++ 3 ∷ 22 ∷ 16 ∷ 0 ∷ 14 ∷ 4 ∷ replicate 97 3 ++ 6 ∷ 21 ∷ []

target_group-SameTranscript_example :
    SameTranscript 18752
      (target_group release_build group_input 139 (replicate 18752 0) 18752)
      (target_group verify_build group_input 139 (replicate 18752 1) 18752)
target_group-SameTranscript_example =
    target_group-SameTranscript release_build verify_build builds_agree group_input 139
      (replicate 18752 0) (replicate 18752 1) 18752 (omega arith)
      (filled-IsCall group_input 139 18752 0 (omega arith) (omega arith))
      (filled-IsCall group_input 139 18752 1 (omega arith) (omega arith))

group_large_due-large_hash_example :
    ((group_large_due (1 ∷ 2 ∷ 3 ∷ []) ≡ true)
      ↔ (large_hash 2166136261 (1 ∷ 2 ∷ 3 ∷ []) * group_large_odds < 2 ^ 32))
    × (large_hash 2166136261 (1 ∷ 2 ∷ 3 ∷ []) ≢ large_hash 2166136261 (1 ∷ 7 ∷ 3 ∷ []))
group_large_due-large_hash_example =
    group_large_due-large_hash (1 ∷ []) (3 ∷ []) 2 7 (omega arith) (omega arith) (omega arith, tt)
      (omega arith)
