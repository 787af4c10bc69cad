-- ===== src/Fuzz/Compare.antt =====
-- The comparison of transcripts in src/fuzz.c, and the report of a divergence.
pub mod First
use diffsecp.Prelude.{
  ℕ, zero, suc, ◌+◌, ◌-◌, List, [], ◌∷◌, Bool, true, false, ◌&&◌, Option, none, some, String,
}
use diffsecp.Prelude.{ltb, ◌==◌, if◌then◌else◌, length, same_bytes}

-- One build of libsecp with the target that the fuzzer was compiled for: its name in
-- `struct diffsecp_variant`, and the transcript of `size` bytes at `data`.
pub record Variant : Type 0 where
  pub name : String
  pub target : List ℕ → ℕ → List ℕ

-- `t` and `len` against `transcripts[0]` and `lengths[0]`.
unfoldable pub matches_reference : List ℕ → List ℕ → Bool
matches_reference reference t = length t == length reference && same_bytes t reference

-- The loop of `report_divergence`: `at` where it stops.
unfoldable pub first_difference : List ℕ → List ℕ → ℕ
first_difference [] t = 0
first_difference (x ∷ reference) [] = 0
first_difference (x ∷ reference) (y ∷ t) =
    let rest = first_difference reference t in if x == y then suc rest else 0

-- The bytes `[lo, hi)` that `dump` prints.
pub record Window : Type 0 where
  pub lo : ℕ
  pub hi : ℕ

unfoldable pub dump_window : ℕ → ℕ → Window
dump_window len at = record {
  lo = if ltb 16 at then at - 16 else 0;
  hi = if ltb (at + 48) len then at + 48 else len;
}

-- What `report_divergence` prints before it aborts.
pub record Report : Type 0 where
  pub name : String
  pub at : ℕ
  pub reference_len : ℕ
  pub len : ℕ
  pub reference_window : Window
  pub window : Window

unfoldable pub report_divergence : List ℕ → String → List ℕ → Report
report_divergence reference name t =
    let at = first_difference reference t in
    record {
      name = name;
      at = at;
      reference_len = length reference;
      len = length t;
      reference_window = dump_window (length reference) at;
      window = dump_window (length t) at;
    }

-- The second loop of `LLVMFuzzerTestOneInput`, over `variants[1..]`, of which each has run already;
-- `none` where all agree.
unfoldable pub compare_variants : List ℕ → List (String × List ℕ) → Option Report
compare_variants reference [] = none
compare_variants reference ((name, t) ∷ rest) =
    if matches_reference reference t
    then compare_variants reference rest
    else some (report_divergence reference name t)
