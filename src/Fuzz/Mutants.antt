-- ===== src/Fuzz/Mutants.antt =====
-- The mutant schemata of src/fuzz.c: which mutants an input triggers, and which it kills.
pub mod Kills
pub mod Builds
use diffsecp.Prelude.{
  ℕ, zero, suc, ◌+◌, ◌-◌, ℤ, pos, negsuc, List, [], ◌∷◌, Bool, true, false, not, ◌&&◌, ◌||◌, Option,
  none, some, String,
}
use diffsecp.Prelude.{if◌then◌else◌}
use diffsecp.Run.Array.{Array, store}
use diffsecp.Fuzz.Compare.{Report, matches_reference, report_divergence}

-- What a run of a schemata build does: its transcript, whether it made an illegal call of the API
-- (`variant_illegal`), and the mutants that it flags in `diffsecp_mutant_infected`.
pub record Schemata : Type 0 where
  pub transcript : List ℕ
  pub illegal : Bool
  pub flags : ℕ → Bool

-- A schemata build, with the value of `diffsecp_mutant` before its arguments.
pub record Build : Type 0 where
  pub name : String
  pub run : ℤ → List ℕ → ℕ → Schemata

-- DIFFSECP_MUTANT_DETECT
abbrev pub detect : ℤ
detect = negsuc 0

-- The arrays that outlive an input.
pub record Mutants : Type 0 where
  pub infected : Array Bool
  pub killed : Array Bool
  pub ever_infected : Array Bool
  pub ever_killed : Array Bool

-- A run can only set entries of `diffsecp_mutant_infected`.
unfoldable pub run_schemata : Build → ℤ → List ℕ → ℕ → Mutants → Schemata × Mutants
run_schemata build mutant input size m =
    let s = build.run mutant input size in
    (s, record m { infected = λ k. s.flags k || m.infected k })

-- How `run_mutants` may abort.
pub data Abort : Type 0 where
  illegal_call : String → Abort
  diverged : Report → Abort

-- The arrays, and `infected` of `run_mutants`: the mutants that any build flagged.
pub record Found : Type 0 where
  pub mutants : Mutants
  pub infected : Array Bool

module _ (reference input : List ℕ) (size : ℕ) where
  -- `diffsecp_mutant_illegal || !matches_reference(...)`
  unfoldable pub exposes : Schemata → Bool
  exposes s = s.illegal || not (matches_reference reference s.transcript)

  -- Mutant `k` of one build, once the input has triggered it.
  unfoldable pub try_mutant : Build → ℕ → Found → Found
  try_mutant build k f =
      let m = record (f.mutants) { ever_infected = store f.mutants.ever_infected k true } in
      let infected = store f.infected k true in
      let (s, m1) = run_schemata build (pos k) input size m in
      let m2 =
        if exposes s
        then record m1 {
          killed = store m1.killed k true;
          ever_killed = store m1.ever_killed k true;
        }
        else m1 in
      record { mutants = if m.ever_killed k then m else m2; infected = infected }

  -- The inner loop, with the mutants left to go: `k` counts up from `k`.
  unfoldable pub mutants_loop : Build → ℕ → ℕ → Found → Found
  mutants_loop build zero k f = f
  mutants_loop build (suc left) k f =
      mutants_loop build left (k + 1) (if f.mutants.infected k then try_mutant build k f else f)

  -- One round of the outer loop.
  unfoldable pub run_build : ℕ → Build → Found → Found
  run_build count build f =
      let m = record (f.mutants) { infected = λ _. false } in
      let (s, m1) = run_schemata build detect input size m in
      mutants_loop build count 0 (record f { mutants = m1 })

  -- The checks of the detecting run; `none` where it agrees with the reference.
  unfoldable pub check_build : Build → Option Abort
  check_build build =
      let s = build.run detect input size in
      if s.illegal
      then some (illegal_call build.name)
      else if matches_reference reference s.transcript
      then none
      else some (diverged (report_divergence reference build.name s.transcript))

  abbrev pub or_abort : Option Abort → Option Abort × Found → Found → Option Abort × Found
  or_abort none next f = next
  or_abort (some a) next f = (some a, f)

  unfoldable pub builds_loop : ℕ → List Build → Found → Option Abort × Found
  builds_loop count [] f = (none, f)
  builds_loop count (build ∷ builds) f =
      let next = builds_loop count builds (run_build count build f) in
      or_abort (check_build build) next f

  -- `memcpy(diffsecp_mutant_infected, infected, ...)` at the end, unless a build aborted.
  abbrev pub publish : Option Abort × Found → Option Abort × Mutants
  publish (none, f) = (none, record (f.mutants) { infected = f.infected })
  publish (some a, f) = (some a, f.mutants)

  unfoldable pub run_mutants : ℕ → List Build → Mutants → Option Abort × Mutants
  run_mutants count builds m =
      publish (builds_loop count builds (record { mutants = m; infected = λ _. false }))

-- `report_mutants`: the word for mutant `k`.
pub data Fate : Type 0 where
  killed masked missed : Fate

unfoldable pub mutant_fate : Mutants → ℕ → Fate
mutant_fate m k =
    if m.ever_killed k then Fate.killed else if m.ever_infected k then Fate.masked else Fate.missed
