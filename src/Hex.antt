-- ===== src/Hex.antt =====
-- The hexadecimal digests that src/replay.c prints and src/oracle.h compares.
pub mod Digits
use diffsecp.Prelude.{ℕ, zero, suc, ◌+◌, ◌/◌, ◌%◌, ◌^◌, List, [], ◌∷◌, ◌++◌, ltb, if◌then◌else◌}

unfoldable pub hex_digit : ℕ → ℕ
hex_digit d = if ltb d 10 then 48 + d else 87 + d

-- `%0nlx` of a value of at most `n` digits.
unfoldable pub hex : ℕ → ℕ → List ℕ
hex zero v = []
hex (suc n) v = hex n (v / 16) ++ hex_digit (v % 16) ∷ []
