-- ===== src/Tests/Family.antt =====
-- The fuzzer over the two builds of the field module, with an oracle that runs the second.

use diffsecp.Prelude.{
  ℕ, List, [], ◌∷◌, ◌++◌, ◌≡◌, refl, ap, ◌∙◌, arith, true, false, some, length, replicate,
  length-replicate, All, pos, negsuc, ◌==◌,
}
use diffsecp.Digest.{diffsecp_digest}
use diffsecp.Hex.{hex}
use diffsecp.Oracle.{Turn, turn_line}
use diffsecp.Oracle.Verdict.{answer_line-front}
use diffsecp.Replay.Lines.{replay_path-answer_line}
use diffsecp.Fuzz.Mutants.{Build}
use diffsecp.Fuzz.Entry.{Fuzzer, State, Verdict, test_one_input}
use diffsecp.Fuzz.Family.{Installed, variant, IsPeer}
use diffsecp.Fuzz.Family.Targets.{field_family}
use diffsecp.Fuzz.Family.Passes.{IsAnswer, Return, test_one_input-IsPeer}
use diffsecp.Tests.Field.Builds.{release, verify, builds_agree}

abbrev reference : Installed field_family
reference = record { name = "release"; api = release; out = replicate 262144 0 }

abbrev peer : Installed field_family
peer = record { name = "verify"; api = verify; out = replicate 262144 1 }

peer-IsPeer : IsPeer field_family reference peer
peer-IsPeer = record {
  contract = builds_agree;
  room = omega (arith, length-replicate {A = ℕ} 262144 1);
}

-- Set register 1 to 1, and add it to register 0.
abbrev input : List ℕ
input = 0 ∷ 1 ∷ replicate 31 0 ++ 1 ∷ 2 ∷ 4 ∷ []

abbrev transcript : List ℕ
transcript = (variant field_family peer).target input (length input)

abbrev target_name : List ℕ
target_name = 102 ∷ []

abbrev input_path : List ℕ
input_path = 112 ∷ []

abbrev turn : Turn
turn = record {
  name = 97 ∷ [];
  sent = true;
  read = some (
      target_name
      ++ (32 ∷ (hex 16 (diffsecp_digest transcript (length transcript)) ++ 32 ∷ input_path)));
  no_answer = [];
}

turn-IsAnswer : IsAnswer field_family reference input turn
unfolding turn_line
turn-IsAnswer = record {
  peer = peer;
  is_peer = peer-IsPeer;
  files = λ p. some input;
  name = target_name;
  path = input_path;
  named = ((omega arith, omega arith), tt);
  stands = refl;
  prints =
      replay_path-answer_line (λ p. some input) target_name _ input_path input refl (omega arith)
      ∙ ap some (
          answer_line-front target_name input_path
            (diffsecp_digest transcript (length transcript)));
}

-- A schemata build that flags mutant 1, and that mutant empties its transcript.
abbrev schemata : Build
schemata = record {
  name = "schemata";
  run = λ mutant bytes size. elim mutant [
    | pos k ↦ record { transcript = []; illegal = false; flags = λ j. false }
    | negsuc k ↦ record {
      transcript = (variant field_family peer).target bytes size;
      illegal = false;
      flags = λ j. j == 1;
    }
  ];
}

abbrev fuzzer : Fuzzer
fuzzer = record {
  reference = variant field_family reference;
  variants = variant field_family peer ∷ [];
  builds = schemata ∷ [];
  mutant_count = 2;
  mutants_off = false;
  answers = λ bytes size. turn ∷ [];
}

abbrev started : State
started = record {
  mutants = record {
    infected = λ k. false;
    killed = λ k. false;
    ever_infected = λ k. false;
    ever_killed = λ k. false;
  };
  sampler = record { oracle_threshold = 1; oracle_rng = 1 };
}

test_one_input-IsPeer_example :
    ((after : State) × (test_one_input fuzzer (some input) (length input) started
        ≡ Verdict.passed after))
    × All (Return field_family reference input) (peer ∷ [])
test_one_input-IsPeer_example =
    test_one_input-IsPeer field_family reference input fuzzer (peer ∷ []) started
      (record {
        bytes = omega arith;
        short = omega arith;
        room = omega (arith, length-replicate {A = ℕ} 262144 0);
      })
      refl refl (peer-IsPeer, tt)
      (record { peer = peer; is_peer = peer-IsPeer; legal = refl; runs = refl }, tt)
      (turn-IsAnswer, tt)
