-- ===== src/Hex/Digits.antt =====
-- Laws of the hexadecimal digits.
use diffsecp.Prelude.{
  ℕ, zero, suc, ◌+◌, ◌*◌, ◌/◌, ◌%◌, ◌^◌, ◌<◌, ◌≤◌, List, [], ◌∷◌, ◌++◌, ◌≡◌, ◌≢◌, refl, ◌∙◌, ap,
  ap₂, sym, arith, length, length-append, All, All-append,
}
use diffsecp.Hex.{hex_digit, hex}
use mathlib.Core.List.{append_assoc, append-nil}
use native.Mathlib.Nat.{pow-suc}

-- The characters 0 to 9 and a to f.
abbrev pub IsHexDigit : ℕ → Type 0
IsHexDigit c = (48 ≤ c) × (c < 103) × (c ≢ 58)

hex_digit-IsHexDigit : (d : ℕ) → d < 16 → IsHexDigit (hex_digit d)
unfolding hex_digit
hex_digit-IsHexDigit d h = ground arith

hex_digit_injective : (d e : ℕ) → d < 16 → e < 16 → hex_digit d ≡ hex_digit e → d ≡ e
unfolding hex_digit
hex_digit_injective d e p q h = ground arith

pub length-hex : (n v : ℕ) → length (hex n v) ≡ n
unfolding hex
length-hex zero v = refl
length-hex (suc n) v =
    omega
      (arith, length-append {0} (hex n (v / 16)) (hex_digit (v % 16) ∷ []), length-hex n (v / 16))

pub hex_digits : (n v : ℕ) → All IsHexDigit (hex n v)
unfolding hex
hex_digits zero v = tt
hex_digits (suc n) v =
    All-append IsHexDigit (hex n (v / 16)) (hex_digit (v % 16) ∷ []) (hex_digits n (v / 16))
      (hex_digit-IsHexDigit (v % 16) (omega arith), tt)

-- Two lists with one element behind them.
pub snoc_injective : (xs ys : List ℕ) (a b : ℕ) → xs ++ a ∷ [] ≡ ys ++ b ∷ [] → (xs ≡ ys) × (a ≡ b)
snoc_injective [] [] a b h = (refl, ground arith)
snoc_injective [] (y ∷ []) a b h = absurd (omega (arith, ap length h))
snoc_injective [] (y ∷ z ∷ ys) a b h = absurd (omega (arith, ap length h))
snoc_injective (x ∷ []) [] a b h = absurd (omega (arith, ap length h))
snoc_injective (x ∷ z ∷ xs) [] a b h = absurd (omega (arith, ap length h))
snoc_injective (x ∷ xs) (y ∷ ys) a b h = ground (arith, snoc_injective xs ys a b)

-- Different values of `n` digits print differently.
pub hex_injective : (n v u : ℕ) → v < 16 ^ n → u < 16 ^ n → hex n v ≡ hex n u → v ≡ u
unfolding hex
hex_injective zero v u p q h = omega arith
hex_injective (suc n) v u p q h =
    let e =
      snoc_injective (hex n (v / 16)) (hex n (u / 16)) (hex_digit (v % 16)) (hex_digit (u % 16))
        h in
    omega (
      arith,
      hex_injective n (v / 16) (u / 16) (omega (arith, pow-suc 16 n)) (omega (arith, pow-suc 16 n))
          e.0,
      hex_digit_injective (v % 16) (u % 16) (omega arith) (omega arith) e.1,
    )

-- A number printed in two parts of `k` and `n` digits.
pub hex_halves :
    (m k n hi lo v : ℕ)
    → m ≡ k + n
    → v ≡ hi * 16 ^ n + lo
    → lo < 16 ^ n
    → hex m v ≡ hex k hi ++ hex n lo
unfolding hex
hex_halves m k zero hi lo v d e h =
    let dm : m ≡ k = omega arith in
    let ev : v ≡ hi = omega arith in rw (dm, ev) (sym (append-nil (hex k hi)))
hex_halves zero k (suc n) hi lo v d e h = absurd (omega arith)
hex_halves (suc m) k (suc n) hi lo v d e h =
    ap₂ (λ xs c. xs ++ hex_digit c ∷ [])
      (hex_halves m k n hi (lo / 16) (v / 16) (omega arith) high below) low
    ∙ append_assoc (hex k hi) (hex n (lo / 16)) (hex_digit (lo % 16) ∷ [])
  where
    shifted : hi * 16 ^ suc n ≡ hi * 16 ^ n * 16
    shifted = omega (arith, ap (λ (t : ℕ). hi * t) (pow-suc 16 n))

    high : v / 16 ≡ hi * 16 ^ n + lo / 16
    high = omega (arith, shifted)

    below : lo / 16 < 16 ^ n
    below = omega (arith, pow-suc 16 n)

    low : v % 16 ≡ lo % 16
    low = omega (arith, shifted)
