-- ===== src/Fuzz/Start.antt =====
-- `LLVMFuzzerInitialize` and `start_oracle` of src/fuzz.c.
pub mod Ready
use diffsecp.Prelude.{
  ℕ, ◌+◌, List, [], ◌∷◌, Bool, true, false, not, ◌&&◌, ◌⊎◌, ◌↔◌, inl, inr, Option, none, some,
  String,
}
use diffsecp.Prelude.{◌≡◌, ◌≢◌, refl, ◌==◌, if◌then◌else◌, length, All}
use text.Mathlib.Text.{◌==◌ as str_eq}
use diffsecp.Digest.{diffsecp_digest}
use diffsecp.Oracle.{Turn, Diverged, oracle_check}
use diffsecp.Oracle.Start.{Oracle, Rate, Started, oracle_start}
use diffsecp.Fuzz.Compare.{Variant}

-- What a started oracle does on the empty input: whether the request goes out, the line it answers,
-- and what `oracle_no_answer` says of its process otherwise.
pub record Reply : Type 0 where
  pub sent : Bool
  pub read : Option (List ℕ)
  pub no_answer : List ℕ

-- The variables `DIFFSECP_MUTANTS`, `DIFFSECP_ORACLE`, `DIFFSECP_ORACLE_DIR` and
-- `DIFFSECP_ORACLE_RATE`, and what the system does: `atof`, the process id, whether the process of a
-- command comes to be, and what the started oracle of each number does.
pub record Environment : Type 0 where
  pub mutants : Option String
  pub oracle : Option (List ℕ)
  pub oracle_dir : Option (List ℕ)
  pub oracle_rate : Option (List ℕ)
  pub atof : List ℕ → Rate
  pub pid : ℕ
  pub spawns : ℕ → List (List ℕ) → Bool
  pub reply : ℕ → Reply

-- What the process goes on with, `reports` being whether `report_mutants` runs at exit.
pub record Settings : Type 0 where
  pub mutants_off : Bool
  pub reports : Bool
  pub oracles : Option Started

-- The three calls of `exit(1)`, and the 0 that is returned.
pub data Init : Type 0 where
  bad_mode : Init
  no_oracle : Init
  oracle_fails : Diverged → Init
  ready : Settings → Init

pub data Mode : Type 0 where
  off report unset bad : Mode

abbrev pub mode_of : Option String → Mode
mode_of none = Mode.unset
mode_of (some mode) =
    if str_eq mode "off"
    then Mode.off
    else if str_eq mode "report"
    then Mode.report
    else if str_eq mode ""
    then Mode.unset
    else Mode.bad

-- `dir != NULL ? dir : "oracle"`
abbrev pub dir_or_default : Option (List ℕ) → List ℕ
dir_or_default none = 111 ∷ 114 ∷ 97 ∷ 99 ∷ 108 ∷ 101 ∷ []
dir_or_default (some dir) = dir

-- `rate != NULL ? atof(rate) : 0.01`
abbrev pub rate_or_default : (List ℕ → Rate) → Option (List ℕ) → Rate
rate_or_default atof none = record { num = 1; den = 100 }
rate_or_default atof (some rate) = atof rate

-- The turns of the started oracles, from the one of that number on.
unfoldable pub turns_from : (ℕ → Reply) → ℕ → List Oracle → List Turn
turns_from reply n [] = []
turns_from reply n (o ∷ oracles) =
    let r = reply n in
    record { name = o.name; sent = r.sent; read = r.read; no_answer = r.no_answer }
    ∷ turns_from reply (n + 1) oracles

module _ (reference : Variant) (env : Environment) where
  abbrev pub empty_digest : ℕ
  empty_digest =
      let transcript = reference.target (0 ∷ []) 0 in diffsecp_digest transcript (length transcript)

  abbrev pub oracle_result : Settings → Started → Option Diverged → Init
  oracle_result s started none = ready (record s { oracles = some started })
  oracle_result s started (some d) = oracle_fails d

  -- The call of `oracle_start`.
  abbrev pub started_by : List ℕ → Option Started
  started_by spec =
      oracle_start env.spawns env.pid spec (dir_or_default env.oracle_dir)
        (rate_or_default env.atof env.oracle_rate)

  -- The call of `oracle_check` where `oracle_start` returned 0, with `char answer[1024]`.
  abbrev pub check_started : Settings → Option Started → Init
  check_started s none = no_oracle
  check_started s (some started) =
      oracle_result s started
        (oracle_check empty_digest 1024 (turns_from env.reply 0 started.oracles))

  abbrev pub start_oracle : Settings → List ℕ → Init
  start_oracle s spec = check_started s (started_by spec)

  abbrev pub start_oracles : Settings → Option (List ℕ) → Init
  start_oracles s none = ready s
  start_oracles s (some []) = ready s
  start_oracles s (some (c ∷ spec)) = start_oracle s (c ∷ spec)

  abbrev pub initialize_mode : Mode → Init
  initialize_mode Mode.bad = bad_mode
  initialize_mode Mode.off =
      start_oracles (record { mutants_off = true; reports = false; oracles = none }) env.oracle
  initialize_mode Mode.report =
      start_oracles (record { mutants_off = false; reports = true; oracles = none }) env.oracle
  initialize_mode Mode.unset =
      start_oracles (record { mutants_off = false; reports = false; oracles = none }) env.oracle

  unfoldable pub fuzzer_initialize : Init
  fuzzer_initialize = initialize_mode (mode_of env.mutants)
