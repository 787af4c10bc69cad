-- ===== src/Tests/Calls.antt =====
-- Calls of a target with a buffer that holds one byte throughout.
use diffsecp.Prelude.{ℕ, ◌≤◌, List, arith, length, replicate, length-replicate, All, IsByte}
use diffsecp.Run.Whole.{IsCall}

pub filled-IsCall :
    (input : List ℕ) (len n v : ℕ)
    → All IsByte input
    → len ≤ length input
    → IsCall input len (replicate n v) n
filled-IsCall input len n v bytes readable = record {
  bytes = bytes;
  readable = readable;
  writable = omega (arith, length-replicate {0} n v);
}
