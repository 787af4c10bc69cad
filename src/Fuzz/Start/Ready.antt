-- ===== src/Fuzz/Start/Ready.antt =====
-- What the fuzzer starts with when `LLVMFuzzerInitialize` returns.
use diffsecp.Prelude.{ℕ, List, [], true, false, Option, none, some, String}
use diffsecp.Prelude.{◌≡◌, ◌⊎◌, All}
use text.Mathlib.Text.{◌==◌ as str_eq}
use diffsecp.Oracle.Start.{Started}
use diffsecp.Oracle.Verdict.{Agrees}
use diffsecp.Fuzz.Compare.{Variant}
use diffsecp.Fuzz.Start.{Environment, Settings, Init, empty_digest, turns_from, started_by}

-- The flags that `DIFFSECP_MUTANTS` asks for; any other text than these ends the program.
pub data AsksFor (mutants : Option String) (s : Settings) : Type 0 where
  no_text : mutants ≡ none → s.mutants_off ≡ false → s.reports ≡ false → AsksFor mutants s
  empty_text : mutants ≡ some "" → s.mutants_off ≡ false → s.reports ≡ false → AsksFor mutants s
  off_text : mutants ≡ some "off" → s.mutants_off ≡ true → s.reports ≡ false → AsksFor mutants s
  report_text :
      mutants ≡ some "report" → s.mutants_off ≡ false → s.reports ≡ true → AsksFor mutants s

module _ (reference : Variant) (env : Environment) where
  -- No oracles where none are named; otherwise those that `oracle_start` started, and in its turn on
  -- the empty input each of them answers the reference digest.
  pub data HasOracles (oracles : Option Started) : Type 0 where
    no_spec : (env.oracle ≡ none) ⊎ (env.oracle ≡ some []) → oracles ≡ none → HasOracles oracles
    spec :
        (text : List ℕ) (started : Started)
        → env.oracle ≡ some text
        → started_by reference env text ≡ some started
        → oracles ≡ some started
        → All (Agrees (empty_digest reference env)) (turns_from env.reply 0 started.oracles)
        → HasOracles oracles

  abbrev IfReady : (Settings → Type 0) → Init → Type 0
  IfReady P Init.bad_mode = Unit
  IfReady P Init.no_oracle = Unit
  IfReady P (Init.oracle_fails d) = Unit
  IfReady P (Init.ready s) = P s

  -- The flags stay, and the oracles are those that were asked for.
  abbrev IsStarted : Settings → Settings → Type 0
  IsStarted s s' =
      (s'.mutants_off ≡ s.mutants_off) × (s'.reports ≡ s.reports) × HasOracles s'.oracles

  abbrev IsReady : Settings → Type 0
  IsReady s = AsksFor env.mutants s × HasOracles s.oracles
