-- ===== src/Tests/Oracle.antt =====
-- The oracles at concrete inputs.
use diffsecp.Prelude.{
  ℕ, ◌-◌, ◌≤◌, List, [], ◌∷◌, ◌++◌, ◌≡◌, ◌↔◌, ◌⊎◌, refl, arith, true, false, some, none, length,
  take, All,
}
use diffsecp.Hex.{hex, hex_digit}
use diffsecp.Replay.{answer_line}
use diffsecp.Oracle.{
  Sampler, uint64_max, oracle_due, Write, wrote, write_eintr, oracle_write, Read, byte, read_eintr,
  oracle_read_line, answer_agrees, c_string, Turn, turn_line, oracle_check,
}
use diffsecp.Oracle.Sampling.{IsSeeded, oracle_due-IsSeeded}
use diffsecp.Oracle.Pipes.{progress, quiet, oracle_write_lem, oracle_read_line_lem}
use diffsecp.Oracle.Verdict.{Agrees, answer_agrees-answer_line, oracle_check-first}

abbrev sampler : Sampler
sampler = record { oracle_threshold = uint64_max; oracle_rng = 1 }

oracle_due-IsSeeded_example :
    IsSeeded (oracle_due sampler).1
    × ((oracle_due sampler).1.oracle_threshold ≡ sampler.oracle_threshold)
    × (sampler.oracle_threshold ≡ uint64_max → (oracle_due sampler).0 ≡ true)
    × (sampler.oracle_threshold ≡ 0 → (oracle_due sampler).0 ≡ false)
oracle_due-IsSeeded_example =
    oracle_due-IsSeeded sampler (record { nonzero = omega arith; word = omega arith })

abbrev writes : List Write
writes = wrote 1 ∷ write_eintr ∷ wrote 2 ∷ wrote 1 ∷ []

abbrev request : List ℕ
request = 3 ∷ 4 ∷ 5 ∷ []

oracle_write_lem_example :
    ((unsent : List ℕ) × (request ≡ (oracle_write writes request).sent ++ unsent)
      × ((oracle_write writes request).success ≡ true → unsent ≡ []))
    × (length request ≤ progress writes → (oracle_write writes request).success ≡ true)
oracle_write_lem_example = oracle_write_lem writes request

-- A line of three bytes for a buffer of three, and the first byte of the next.
abbrev reads : List Read
reads = byte 65 ∷ read_eintr ∷ byte 66 ∷ byte 67 ∷ byte 10 ∷ byte 68 ∷ []

oracle_read_line_lem_example :
    ((oracle_read_line 3 reads).0 ≡ some (take (3 - 1) (65 ∷ 66 ∷ 67 ∷ [])))
    × (quiet (oracle_read_line 3 reads).1 ≡ byte 68 ∷ [])
oracle_read_line_lem_example =
    oracle_read_line_lem 3 reads (65 ∷ 66 ∷ 67 ∷ []) (byte 68 ∷ []) (omega arith) refl

-- `f 0000000000000102 p`
abbrev digest_line : List ℕ
digest_line =
    102 ∷ 32 ∷ 48 ∷ 48 ∷ 48 ∷ 48 ∷ 48 ∷ 48 ∷ 48 ∷ 48 ∷ 48 ∷ 48 ∷ 48 ∷ 48 ∷ 48 ∷ 49 ∷ 48 ∷ 50 ∷ 32
    ∷ 112 ∷ []

digest_line-answer_line : answer_line (102 ∷ []) 258 (112 ∷ []) ≡ digest_line ++ 10 ∷ []
unfolding answer_line hex hex_digit
digest_line-answer_line = refl

abbrev answered : ℕ
answered = 258

abbrev reference : ℕ
reference = 259

answer_agrees-answer_line_example :
    (answer_agrees reference digest_line ≡ true) ↔ (answered ≡ reference)
answer_agrees-answer_line_example =
    answer_agrees-answer_line (102 ∷ []) (112 ∷ []) digest_line answered reference (omega arith)
      (omega arith) (omega arith) digest_line-answer_line

-- The first answers 258, the second has ended.
abbrev turns : List Turn
turns =
    record { name = 97 ∷ []; sent = true; read = some digest_line; no_answer = [] }
    ∷ record { name = 98 ∷ []; sent = false; read = none; no_answer = 110 ∷ 111 ∷ [] }
    ∷ []

oracle_check-first_example :
    ((oracle_check 258 1024 turns ≡ none) × All (Agrees 258) turns)
    ⊎ ((before : List Turn) × (t : Turn) × (after : List Turn) × (turns ≡ before ++ t ∷ after)
        × All (Agrees 258) before
        × (answer_agrees 258 (turn_line t) ≡ false)
        × (oracle_check 258 1024 turns
            ≡ some (record { name = t.name; answer = take (1024 - 1) (c_string (turn_line t)) })))
oracle_check-first_example = oracle_check-first 258 1024 turns
