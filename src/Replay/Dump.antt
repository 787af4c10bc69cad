-- ===== src/Replay/Dump.antt =====
-- `dump` of src/replay.c, which prints one transcript byte by byte.
use diffsecp.Limits.{diffsecp_input_max}
use diffsecp.Prelude.{
  ℕ, ◌+◌, ◌-◌, ◌*◌, ◌/◌, ◌%◌, ◌<◌, ◌≤◌, List, [], ◌∷◌, ◌++◌, Option, none, some, ◌||◌, false,
}
use diffsecp.Prelude.{◌≡◌, refl, ap, arith, ltb, ◌==◌, if◌then◌else◌, length, take_within, All}
use diffsecp.Hex.{hex, hex_digit}
use diffsecp.Replay.{Files, read_input, Output}

-- The loop over the bytes from `i` on, of `tlen`.
unfoldable pub dump_bytes : ℕ → ℕ → List ℕ → List ℕ
dump_bytes tlen i [] = []
dump_bytes tlen i (b ∷ bytes) =
    let rest = dump_bytes tlen (i + 1) bytes in
    hex 2 b ++ ((if i % 32 == 31 || (i + 1 == tlen) then 10 else 32) ∷ rest)

module _ (fn : List ℕ → List ℕ) where
  -- The input has been read.
  unfoldable pub dump_read : Option (List ℕ) → Output
  dump_read none = record { printed = []; code = 1 }
  dump_read (some input) =
      if ltb diffsecp_input_max (length input)
      then record { printed = []; code = 1 }
      else record { printed = dump_bytes (length (fn input)) 0 (fn input); code = 0 }

  unfoldable pub dump : Files → List ℕ → Output
  dump files path = dump_read (read_input files path)

-- The value of a digit, and the bytes that a dump stands for: two digits each, and what separates them.
pub digit_value : ℕ → ℕ
digit_value c = if ltb c 58 then c - 48 else c - 87

pub read_dump : List ℕ → List ℕ
read_dump [] = []
read_dump (a ∷ []) = []
read_dump (a ∷ b ∷ []) = []
read_dump (a ∷ b ∷ separator ∷ rest) = (digit_value a * 16 + digit_value b) ∷ read_dump rest

digit_value-hex_digit : (d : ℕ) → d < 16 → digit_value (hex_digit d) ≡ d
unfolding digit_value hex_digit
digit_value-hex_digit d l = ground (arith, l)

read_dump-dump_bytes :
    (tlen i : ℕ) (bytes : List ℕ)
    → All (λ b. b < 256) bytes
    → read_dump (dump_bytes tlen i bytes) ≡ bytes
unfolding dump_bytes read_dump hex
read_dump-dump_bytes tlen i [] h = refl
read_dump-dump_bytes tlen i (b ∷ bytes) h =
    rw
      (
        digit_value-hex_digit (b / 16 % 16) (omega arith),
        digit_value-hex_digit (b % 16) (omega arith),
        read_dump-dump_bytes tlen (i + 1) bytes h.1,
      )
      (ap (λ x. x ∷ bytes) (omega (arith, h.0)))

-- For every file whose contents are within the limit on inputs, and a transcript of bytes: `dump`
-- prints the transcript such that reading back the digits, two for a byte, gives it again, and exits
-- with 0.
pub dump-read_dump :
    (fn : List ℕ → List ℕ) (files : Files) (path input : List ℕ)
    → files path ≡ some input
    → length input ≤ diffsecp_input_max
    → All (λ b. b < 256) (fn input)
    → (read_dump (dump fn files path).printed ≡ fn input) × ((dump fn files path).code ≡ 0)
unfolding dump dump_read read_input
dump-read_dump fn files path input e l h =
    let within : ltb diffsecp_input_max (length input) ≡ false = ground (arith, l) in
    rw (e, take_within {0} (diffsecp_input_max + 1) input (omega (arith, l)), within)
      (read_dump-dump_bytes (length (fn input)) 0 (fn input) h, refl)
