-- ===== src/Tests/Ecdsa.antt =====
-- The ECDSA target, and the encodings that it builds, at concrete inputs.
mod Builds
use diffsecp.Prelude.{
  ℕ, zero, suc, List, [], ◌∷◌, ◌++◌, replicate, arith, length, refl, ◌≡◌, ◌≤◌, some, true,
}
use diffsecp.Run.{World}
use diffsecp.Run.Agree.{IsValid}
use diffsecp.Run.Whole.{SameTranscript}
use diffsecp.Ecdsa.Der.{ecdsa_der_build, ecdsa_der_len}
use diffsecp.Ecdsa.Sequence.{
  IsSequence, read_length, read_length-ecdsa_der_len, ecdsa_der_build-IsSequence,
}
use diffsecp.Ecdsa.Machine.{target_ecdsa}
use diffsecp.Ecdsa.Agree.{target_ecdsa-SameTranscript}
use Builds.{release_build, verify_build, builds_agree}
use diffsecp.Tests.Calls.{filled-IsCall}

-- Sign through the custom nonce function with a built encoding, into which two bytes are inserted.
abbrev ecdsa_input : List ℕ
ecdsa_input =
    101 ∷ replicate 96 5
    ++ 53 ∷ replicate 64 7
    ++ 15 ∷ 4 ∷ replicate 4 9
    ++ 3 ∷ replicate 3 9
    ++ 2 ∷ 4 ∷ 5 ∷ 6 ∷ 9 ∷ 7 ∷ 8 ∷ replicate 20 1

target_ecdsa-SameTranscript_example :
    SameTranscript 1130
      (target_ecdsa release_build ecdsa_input 199 (replicate 1200 0) 1200)
      (target_ecdsa verify_build ecdsa_input 199 (replicate 1200 1) 1200)
target_ecdsa-SameTranscript_example =
    target_ecdsa-SameTranscript release_build verify_build builds_agree ecdsa_input 199
      (replicate 1200 0) (replicate 1200 1) 1200 (omega arith) (omega arith)
      (filled-IsCall ecdsa_input 199 1200 0 (omega arith) (omega arith))
      (filled-IsCall ecdsa_input 199 1200 1 (omega arith) (omega arith))

read_length-ecdsa_der_len_example :
    read_length (ecdsa_der_len 300 true ++ 7 ∷ []) ≡ some (300, 7 ∷ [])
read_length-ecdsa_der_len_example = read_length-ecdsa_der_len 300 true (7 ∷ []) (omega arith)

-- Integers of four and three bytes, a long form for the sequence, and a length that is 1 short.
abbrev der_world : World
der_world = record {
  r = record { p = 9 ∷ 4 ∷ 1 ∷ 2 ∷ 3 ∷ 4 ∷ 3 ∷ 5 ∷ 6 ∷ 7 ∷ []; left = 10 };
  t = record { buf = replicate 8 0; cap = 8; len = 0 };
}

der_world-IsValid : IsValid der_world
der_world-IsValid = record {
  reader = record { in_bounds = omega arith; bytes = omega arith };
  transcript = record { filled = omega arith; in_bounds = omega arith };
}

ecdsa_der_build-IsSequence_example :
    (der : List ℕ) × (after : World) × (ecdsa_der_build der_world ≡ some (der, after))
    × IsSequence der
    × (length der ≤ 523)
    × (after.t.len ≤ 0)
    × IsValid after
ecdsa_der_build-IsSequence_example = ecdsa_der_build-IsSequence der_world der_world-IsValid
