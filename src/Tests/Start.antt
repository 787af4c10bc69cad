-- ===== src/Tests/Start.antt =====
-- The start of the fuzzer and of its oracles at concrete inputs.
use diffsecp.Oracle.Start.Spec.{join, entries_of, IsPiece, oracle_start-entries_of}
use diffsecp.Prelude.{◌≢◌}
use diffsecp.Prelude.{ℕ, List, [], ◌∷◌, ◌≡◌, refl, arith, true, false, none, some, take}
use diffsecp.Oracle.{answer_agrees}
use diffsecp.Oracle.Ended.{
  exited, oracle_no_answer, oracle_no_answer-diverges, decimal, digits_from,
}
use diffsecp.Oracle.Start.{
  Oracle, Rate, Started, cut, tokens, skip_spaces, split_at, threshold, oracle_input, start_command,
  start_entries, oracle_start,
}
use diffsecp.Oracle.Start.Bounds.{IsReady, oracle_start-IsReady}
use diffsecp.Fuzz.Compare.{Variant}
use diffsecp.Fuzz.Start.{Environment, Settings}

oracle_no_answer-diverges_example : answer_agrees 258 (oracle_no_answer (exited 127) 1024) ≡ false
oracle_no_answer-diverges_example = oracle_no_answer-diverges (exited 127) 1024 258 (omega arith)

-- `arm=q r;; b=w`
abbrev oracle_spec : List ℕ
oracle_spec = 97 ∷ 114 ∷ 109 ∷ 61 ∷ 113 ∷ 32 ∷ 114 ∷ 59 ∷ 59 ∷ 32 ∷ 98 ∷ 61 ∷ 119 ∷ []

abbrev oracle_dir : List ℕ
oracle_dir = 111 ∷ []

-- One input in a hundred.
abbrev rate : Rate
rate = record { num = 1; den = 100 }

abbrev started : Started
started = record {
  sampler = record { oracle_threshold = 184467440737095516; oracle_rng = 180388626433 };
  input = 111 ∷ 47 ∷ 52 ∷ 50 ∷ 47 ∷ 105 ∷ 110 ∷ 112 ∷ 117 ∷ 116 ∷ [];
  oracles =
      record { name = 97 ∷ 114 ∷ 109 ∷ []; argv = (113 ∷ []) ∷ (114 ∷ []) ∷ [] }
      ∷ record { name = 98 ∷ []; argv = (119 ∷ []) ∷ [] }
      ∷ [];
}

oracle_start-started : oracle_start (λ n argv. true) 42 oracle_spec oracle_dir rate ≡ some started
unfolding cut tokens skip_spaces split_at threshold oracle_input start_command start_entries
    oracle_start decimal digits_from
oracle_start-started = refl

oracle_start-IsReady_example : IsReady started
oracle_start-IsReady_example =
    oracle_start-IsReady (λ n argv. true) 42 oracle_spec oracle_dir rate started (omega arith)
      oracle_start-started

abbrev reference : Variant
reference = record { name = "int128"; target = λ input size. take size input }

-- The digest of no bytes.
abbrev answer : List ℕ
answer =
    102 ∷ 32 ∷ 99 ∷ 98 ∷ 102 ∷ 50 ∷ 57 ∷ 99 ∷ 101 ∷ 52 ∷ 56 ∷ 52 ∷ 50 ∷ 50 ∷ 50 ∷ 51 ∷ 50 ∷ 53 ∷ 32
    ∷ 112 ∷ []

-- Both oracles answer, the rate is the default.
abbrev environment : Environment
environment = record {
  mutants = some "report";
  oracle = some oracle_spec;
  oracle_dir = some oracle_dir;
  oracle_rate = none;
  atof = λ text. record { num = 0; den = 1 };
  pid = 42;
  spawns = λ n argv. true;
  reply = λ n. record { sent = true; read = some answer; no_answer = [] };
}

abbrev settings : Settings
settings = record { mutants_off = false; reports = true; oracles = some started }

abbrev written : List Oracle
written =
    record { name = 97 ∷ 114 ∷ 109 ∷ []; argv = (113 ∷ []) ∷ (114 ∷ []) ∷ [] }
    ∷ record { name = 98 ∷ []; argv = (119 ∷ []) ∷ [] }
    ∷ []

word-IsPiece : (c : ℕ) → c ≢ 32 → IsPiece 32 (c ∷ [])
word-IsPiece c h = record { filled = omega arith; whole = (h, tt) }

oracle_start-entries_of_example :
    (st : Started) × (oracle_start
        (λ n argv. true)
        42
        (join 59 (entries_of written))
        oracle_dir
        rate
      ≡ some st)
    × (st.oracles ≡ written)
oracle_start-entries_of_example =
    oracle_start-entries_of (λ n argv. true) 42 oracle_dir rate written (omega arith)
      (λ n argv. refl)
      (
        record {
          name = omega arith;
          name_whole = omega arith;
          begins = omega arith;
          some_words = omega arith;
          few_words = omega arith;
          words = (word-IsPiece 113 (omega arith), (word-IsPiece 114 (omega arith), tt));
          words_whole = ((omega arith, tt), ((omega arith, tt), tt));
        },
        (
          record {
            name = omega arith;
            name_whole = omega arith;
            begins = omega arith;
            some_words = omega arith;
            few_words = omega arith;
            words = (word-IsPiece 119 (omega arith), tt);
            words_whole = ((omega arith, tt), tt);
          },
          tt,
        ),
      )
