-- ===== src/Tests/Fuzz.antt =====
-- The fuzzer at concrete inputs: two builds that agree, a third that does not, and the self test.
use diffsecp.Prelude.{
  ℕ, ◌+◌, List, [], ◌∷◌, ◌++◌, ◌≡◌, ◌≢◌, ◌↔◌, ◌⊎◌, refl, arith, false, some, none, String, All,
  ◌==◌, if◌then◌else◌, pos, negsuc,
}
use diffsecp.Fuzz.Compare.{Variant, Report, matches_reference, compare_variants}
use diffsecp.Fuzz.Compare.First.{Agrees, IsReportOf, compare_variants-first}
use diffsecp.Fuzz.Mutants.{Build, Mutants, check_build, run_mutants}
use diffsecp.Fuzz.Mutants.Builds.{IsRound, run_mutants-IsRound}
use diffsecp.Fuzz.Entry.{Fuzzer, State, Verdict, test_one_input, flip_last, selftest}
use diffsecp.Fuzz.Entry.Selftest.{test_one_input-selftest}
use diffsecp.Fuzz.Entry.Passed.{IsClean, test_one_input-IsClean}

abbrev bytes : List ℕ
bytes = 1 ∷ 2 ∷ 3 ∷ []

abbrev results : List (String × List ℕ)
results = ("int128", bytes) ∷ ("int64", 1 ∷ 2 ∷ 4 ∷ []) ∷ []

compare_variants-first_example :
    ((compare_variants bytes results ≡ none) × All (Agrees bytes) results)
    ⊎ ((before : List (String × List ℕ)) × (name : String) × (t : List ℕ) × (after : List
          (String × List ℕ))
        × (report : Report) × (results ≡ before ++ (name, t) ∷ after)
        × All (Agrees bytes) before
        × (t ≢ bytes)
        × (compare_variants bytes results ≡ some report)
        × IsReportOf bytes name t report)
compare_variants-first_example = compare_variants-first bytes results

-- Mutant 1 is triggered and changes the transcript.
abbrev schemata : Build
schemata = record {
  name = "schemata";
  run = λ mutant input size. elim mutant [
    | pos k ↦ record {
      transcript = if k == 1 then [] else input;
      illegal = false;
      flags = λ j. false;
    }
    | negsuc k ↦ record { transcript = input; illegal = false; flags = λ j. j == 1 }
  ];
}

abbrev fresh : Mutants
fresh = record {
  infected = λ k. false;
  killed = λ k. false;
  ever_infected = λ k. false;
  ever_killed = λ k. false;
}

run_mutants-IsRound_example :
    (n : Mutants) × (run_mutants bytes bytes 3 2 (schemata ∷ []) fresh ≡ (none, n))
    × IsRound bytes bytes 3 2 (schemata ∷ []) 1 fresh n
unfolding check_build matches_reference
run_mutants-IsRound_example =
    run_mutants-IsRound bytes bytes 3 2 (schemata ∷ []) 1 fresh ((λ k j. refl), tt) (refl, tt)
      (omega arith)

abbrev echo : Variant
echo = record { name = "echo"; target = λ input size. input }

abbrev fuzzer : Fuzzer
fuzzer = record {
  reference = echo;
  variants = echo ∷ selftest echo ∷ [];
  builds = schemata ∷ [];
  mutant_count = 2;
  mutants_off = false;
  answers = λ input size. [];
}

abbrev started : State
started = record { mutants = fresh; sampler = record { oracle_threshold = 0; oracle_rng = 1 } }

test_one_input-selftest_example :
    (report : Report) × (test_one_input fuzzer (some bytes) 3 started ≡ Verdict.diverged report)
    × IsReportOf bytes "echo" (flip_last bytes) report
    × (report.at + 1 ≡ report.reference_len)
    × (report.len ≡ report.reference_len)
test_one_input-selftest_example =
    test_one_input-selftest fuzzer (echo ∷ []) [] echo (some bytes) 3 started refl (omega arith)
      (refl, tt) refl (omega arith)

test_one_input-IsClean_example :
    ((after : State) × (test_one_input fuzzer none 0 started ≡ Verdict.passed after))
    ↔ IsClean fuzzer (0 ∷ []) 0 started
test_one_input-IsClean_example = test_one_input-IsClean fuzzer none 0 started
