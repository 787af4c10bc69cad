-- ===== src/Fuzz/Entry.antt =====
-- `LLVMFuzzerTestOneInput` of src/fuzz.c, and the build of src/variant.c that it must report.
pub mod Selftest
pub mod Passed
use diffsecp.Limits.{diffsecp_input_max}
use diffsecp.Prelude.{
  ℕ, zero, suc, ◌+◌, ◌-◌, List, [], ◌∷◌, ◌++◌, Bool, true, false, not, ◌&&◌, ◌||◌, Option, none,
  some, String, map,
}
use diffsecp.Prelude.{ltb, ◌==◌, if◌then◌else◌, bit_xor, length}
use diffsecp.Digest.{diffsecp_digest}
use diffsecp.Oracle.{Sampler, oracle_due, Turn, Diverged, oracle_check}
use diffsecp.Fuzz.Compare.{Variant, Report, compare_variants}
use diffsecp.Fuzz.Mutants.{Build, Mutants, Abort, run_mutants}

-- What is fixed when the fuzzer is built and started. `answers` is what the oracles do on an input.
pub record Fuzzer : Type 0 where
  pub reference : Variant
  pub variants : List Variant
  pub builds : List Build
  pub mutant_count : ℕ
  pub mutants_off : Bool
  pub answers : List ℕ → ℕ → List Turn

-- What one input changes.
pub record State : Type 0 where
  pub mutants : Mutants
  pub sampler : Sampler

-- `rejected` is the -1 of an input that is too large and `passed` the 0; the others abort.
pub data Verdict : Type 0 where
  rejected : Verdict
  passed : State → Verdict
  diverged : Report → Verdict
  mutants_abort : Abort → Verdict
  oracle_diverged : Diverged → Verdict

-- `data`, or the one byte of `empty` where it is `NULL`.
abbrev pub data_or_empty : Option (List ℕ) → List ℕ
data_or_empty none = 0 ∷ []
data_or_empty (some input) = input

-- The transcripts of `variants[1..]`.
abbrev pub transcripts : List Variant → List ℕ → ℕ → List (String × List ℕ)
transcripts [] input size = []
transcripts (v ∷ vs) input size = (v.name, v.target input size) ∷ transcripts vs input size

abbrev pub oracle_verdict : State → Option Diverged → Verdict
oracle_verdict after none = passed after
oracle_verdict after (some d) = oracle_diverged d

module _ (z : Fuzzer) where
  -- `check_oracle`, with `char answer[1024]`.
  unfoldable pub check_oracle : List ℕ → ℕ → List ℕ → State → Verdict
  check_oracle input size reference s =
      let (due, sampler) = oracle_due s.sampler in
      let after = record s { sampler = sampler } in
      if due
      then oracle_verdict after
          (oracle_check (diffsecp_digest reference (length reference)) 1024 (z.answers input size))
      else passed after

  abbrev pub after_mutants : List ℕ → ℕ → List ℕ → State → Option Abort × Mutants → Verdict
  after_mutants input size reference s (some a, m) = mutants_abort a
  after_mutants input size reference s (none, m) =
      check_oracle input size reference (record s { mutants = m })

  abbrev pub after_compare : List ℕ → ℕ → List ℕ → State → Option Report → Verdict
  after_compare input size reference s (some r) = diverged r
  after_compare input size reference s none =
      if z.mutants_off
      then check_oracle input size reference s
      else after_mutants input size reference s
          (run_mutants reference input size z.mutant_count z.builds s.mutants)

  unfoldable pub test_one_input : Option (List ℕ) → ℕ → State → Verdict
  test_one_input input size s =
      let bytes = data_or_empty input in
      let reference = z.reference.target bytes size in
      if ltb diffsecp_input_max size
      then rejected
      else after_compare bytes size reference s
          (compare_variants reference (transcripts z.variants bytes size))

-- `out[n - 1] ^= 1` where the transcript is not empty (DIFFSECP_SELFTEST of src/variant.c).
unfoldable pub flip_last : List ℕ → List ℕ
flip_last [] = []
flip_last (b ∷ []) = bit_xor b 1 ∷ []
flip_last (b ∷ c ∷ t) = b ∷ flip_last (c ∷ t)

-- DIFFSECP_SELFTEST_WRAP
unfoldable pub selftest : Variant → Variant
selftest v = record v { target = λ input size. flip_last (v.target input size) }
