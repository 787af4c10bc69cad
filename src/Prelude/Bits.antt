-- ===== src/Prelude/Bits.antt =====
-- Laws of `&`, `|` and `^` at variables, from the digit recursion that the native operations mean.
use Prim.Native.Nat.{ℕ, zero, suc, ◌+◌, ◌-◌, ◌*◌, ◌/◌, ◌%◌, ◌^◌, ◌≤◌, ◌<◌, min, max, digits, differ}
use Prim.Native.Nat.{bit_and, bit_or, bit_xor, bit_and-bitwise, bit_or-bitwise, bit_xor-bitwise}
use diffsecp.Prelude.Tests.{◌==◌}
use mathlib.Core.Bool.{Bool, not}
use mathlib.Core.Path.{◌≡◌, refl, ap}
use native.Mathlib.Nat.{pow-suc}
use native.Mathlib.Omega.{arith}

abbrev pub IsByte : ℕ → Type 0
IsByte b = b < 256

-- The digits of `a` are at most `a`, so any two counts of at least `a` give the same result.
digits_enough :
    (z : ℕ → ℕ) (f : ℕ → ℕ → ℕ) (n m a b : ℕ) → a ≤ n → a ≤ m → digits z f n a b ≡ digits z f m a b
digits_enough z f zero zero a b p q = refl
digits_enough z f zero (suc m) zero b p q = refl
digits_enough z f zero (suc m) (suc a) b p q = elim p [ ]
digits_enough z f (suc n) zero zero b p q = refl
digits_enough z f (suc n) zero (suc a) b p q = elim q [ ]
digits_enough z f (suc n) (suc m) zero b p q = refl
digits_enough z f (suc n) (suc m) (suc a) b p q =
    omega (arith, digits_enough z f n m (suc a / 2) (b / 2) (omega arith) (omega arith))

bit_and_step : (a b : ℕ) → bit_and a b ≡ bit_and (a / 2) (b / 2) * 2 + min (a % 2) (b % 2)
bit_and_step zero b = omega (arith, bit_and-bitwise 0 b, bit_and-bitwise 0 (b / 2))
bit_and_step (suc a) b = omega (
  arith,
  bit_and-bitwise (suc a) b,
  bit_and-bitwise (suc a / 2) (b / 2),
  digits_enough (λ _. zero) min a (suc a / 2) (suc a / 2) (b / 2) (omega arith) (omega arith),
)

bit_or_step : (a b : ℕ) → bit_or a b ≡ bit_or (a / 2) (b / 2) * 2 + max (a % 2) (b % 2)
bit_or_step zero b = omega (arith, bit_or-bitwise 0 b, bit_or-bitwise 0 (b / 2))
bit_or_step (suc a) b = omega (
  arith,
  bit_or-bitwise (suc a) b,
  bit_or-bitwise (suc a / 2) (b / 2),
  digits_enough (λ y. y) max a (suc a / 2) (suc a / 2) (b / 2) (omega arith) (omega arith),
)

differ_zero : (b : ℕ) → b < 2 → differ 0 b ≡ b
differ_zero zero h = refl
differ_zero (suc zero) h = refl
differ_zero (suc (suc b)) h = absurd (omega arith)

bit_xor_step : (a b : ℕ) → bit_xor a b ≡ bit_xor (a / 2) (b / 2) * 2 + differ (a % 2) (b % 2)
bit_xor_step zero b =
    omega (arith, bit_xor-bitwise 0 b, bit_xor-bitwise 0 (b / 2), differ_zero (b % 2) (omega arith))
bit_xor_step (suc a) b = omega (
  arith,
  bit_xor-bitwise (suc a) b,
  bit_xor-bitwise (suc a / 2) (b / 2),
  digits_enough (λ y. y) differ a (suc a / 2) (suc a / 2) (b / 2) (omega arith) (omega arith),
)

bit_and-zero : (n a : ℕ) → a ≤ n → bit_and a 0 ≡ 0
bit_and-zero zero zero h = refl
bit_and-zero zero (suc a) h = elim h [ ]
bit_and-zero (suc n) zero h = refl
bit_and-zero (suc n) (suc a) h =
    omega (arith, bit_and_step (suc a) 0, bit_and-zero n (suc a / 2) (omega arith))

bit_or-zero : (n a : ℕ) → a ≤ n → bit_or a 0 ≡ a
bit_or-zero zero zero h = refl
bit_or-zero zero (suc a) h = elim h [ ]
bit_or-zero (suc n) zero h = refl
bit_or-zero (suc n) (suc a) h =
    omega (arith, bit_or_step (suc a) 0, bit_or-zero n (suc a / 2) (omega arith))

-- `x & 1` and `x & 3` are remainders.
pub bit_and-one : (a : ℕ) → bit_and a 1 ≡ a % 2
bit_and-one a = omega (arith, bit_and_step a 1, bit_and-zero (a / 2) (a / 2) (omega arith))

pub bit_and_three : (a : ℕ) → bit_and a 3 ≡ a % 4
bit_and_three a = omega (arith, bit_and_step a 3, bit_and-one (a / 2))

pub bit_and_seven : (a : ℕ) → bit_and a 7 ≡ a % 8
bit_and_seven a = omega (arith, bit_and_step a 7, bit_and_three (a / 2))

-- `(q << k) | r` is a sum where `r` has no more than `k` bits.
pub bit_or_fields : (k q r : ℕ) → r < 2 ^ k → bit_or (q * 2 ^ k) r ≡ q * 2 ^ k + r
bit_or_fields zero q r h = ground (arith, bit_or-zero (q * 1) (q * 1))
bit_or_fields (suc k) q r h = ground (
  arith,
  pow-suc 2 k,
  double,
  bit_or_step (q * 2 ^ suc k) r,
  bit_or_fields k q (r / 2) (omega (arith, pow-suc 2 k)),
)
  where
    double : q * 2 ^ suc k ≡ q * 2 ^ k * 2
    double = omega (arith, ap (λ (t : ℕ). q * t) (pow-suc 2 k))

or_comm : (n a b : ℕ) → a ≤ n → b ≤ n → bit_or a b ≡ bit_or b a
or_comm zero a b p q =
    let ea : a ≡ 0 = omega arith in let eb : b ≡ 0 = omega arith in rw (ea, eb) refl
or_comm (suc n) a b p q =
    omega (
      arith,
      bit_or_step a b,
      bit_or_step b a,
      or_comm n (a / 2) (b / 2) (omega arith) (omega arith),
    )

pub bit_or_comm : (a b : ℕ) → bit_or a b ≡ bit_or b a
bit_or_comm a b = or_comm (a + b) a b (omega arith) (omega arith)

differ-eq_zero : (a b : ℕ) → a < 2 → b < 2 → differ a b ≡ 0 → a ≡ b
differ-eq_zero zero zero p q h = refl
differ-eq_zero zero (suc zero) p q h = absurd (omega arith)
differ-eq_zero zero (suc (suc b)) p q h = absurd (omega arith)
differ-eq_zero (suc zero) zero p q h = absurd (omega arith)
differ-eq_zero (suc zero) (suc zero) p q h = refl
differ-eq_zero (suc zero) (suc (suc b)) p q h = absurd (omega arith)
differ-eq_zero (suc (suc a)) b p q h = absurd (omega arith)

bit_xor_cancel : (n a b : ℕ) → a ≤ n → bit_xor a b ≡ 0 → a ≡ b
bit_xor_cancel zero zero b p h = omega (arith, bit_xor-bitwise 0 b)
bit_xor_cancel zero (suc a) b p h = elim p [ ]
bit_xor_cancel (suc n) zero b p h = omega (arith, bit_xor-bitwise 0 b)
bit_xor_cancel (suc n) (suc a) b p h = omega (
  arith,
  bit_xor_step (suc a) b,
  bit_xor_cancel n (suc a / 2) (b / 2) (omega arith) (omega (arith, bit_xor_step (suc a) b)),
  differ-eq_zero (suc a % 2) (b % 2) (omega arith) (omega arith)
      (omega (arith, bit_xor_step (suc a) b)),
)

-- Only equal numbers have no bit in which they differ.
pub bit_xor-eq_zero : (a b : ℕ) → bit_xor a b ≡ 0 → a ≡ b
bit_xor-eq_zero a b h = bit_xor_cancel a a b (omega arith) h

differ-zero : (a : ℕ) → a < 2 → differ a 0 ≡ a
differ-zero zero h = refl
differ-zero (suc a) h = refl

bit_xor-zero_fuel : (n a : ℕ) → a ≤ n → bit_xor a 0 ≡ a
bit_xor-zero_fuel zero zero h = refl
bit_xor-zero_fuel zero (suc a) h = elim h [ ]
bit_xor-zero_fuel (suc n) zero h = refl
bit_xor-zero_fuel (suc n) (suc a) h = omega (
  arith,
  bit_xor_step (suc a) 0,
  bit_xor-zero_fuel n (suc a / 2) (omega arith),
  differ-zero (suc a % 2) (omega arith),
)

differ_right : (x y z : ℕ) → x < 2 → y < 2 → z < 2 → differ x z ≡ differ y z → x ≡ y
differ_right zero zero z p q r h = refl
differ_right (suc zero) (suc zero) z p q r h = refl
differ_right zero (suc zero) zero p q r h = absurd (omega arith)
differ_right zero (suc zero) (suc zero) p q r h = absurd (omega arith)
differ_right (suc zero) zero zero p q r h = absurd (omega arith)
differ_right (suc zero) zero (suc zero) p q r h = absurd (omega arith)
differ_right x y z p q r h = absurd (omega arith)

differ_left : (x y z : ℕ) → x < 2 → y < 2 → z < 2 → differ z x ≡ differ z y → x ≡ y
differ_left zero zero z p q r h = refl
differ_left (suc zero) (suc zero) z p q r h = refl
differ_left zero (suc zero) zero p q r h = absurd (omega arith)
differ_left zero (suc zero) (suc zero) p q r h = absurd (omega arith)
differ_left (suc zero) zero zero p q r h = absurd (omega arith)
differ_left (suc zero) zero (suc zero) p q r h = absurd (omega arith)
differ_left x y z p q r h = absurd (omega arith)

differ-lt : (x y : ℕ) → x < 2 → y < 2 → differ x y < 2
differ-lt zero y p q = q
differ-lt (suc zero) zero p q = omega arith
differ-lt (suc zero) (suc zero) p q = omega arith
differ-lt x y p q = absurd (omega arith)

xor_right : (n a b c : ℕ) → a ≤ n → b ≤ n → bit_xor a c ≡ bit_xor b c → a ≡ b
xor_right zero a b c p q h = omega arith
xor_right (suc n) a b c p q h = omega (
  arith,
  differ_right (a % 2) (b % 2) (c % 2) (omega arith) (omega arith) (omega arith) low,
  xor_right n (a / 2) (b / 2) (c / 2) (omega arith) (omega arith) high,
)
  where
    low : differ (a % 2) (c % 2) ≡ differ (b % 2) (c % 2)
    low = omega (
      arith,
      bit_xor_step a c,
      bit_xor_step b c,
      differ-lt (a % 2) (c % 2) (omega arith) (omega arith),
      differ-lt (b % 2) (c % 2) (omega arith) (omega arith),
    )

    high : bit_xor (a / 2) (c / 2) ≡ bit_xor (b / 2) (c / 2)
    high = omega (arith, bit_xor_step a c, bit_xor_step b c, low)

xor_left : (n a b c : ℕ) → a ≤ n → b ≤ n → bit_xor c a ≡ bit_xor c b → a ≡ b
xor_left zero a b c p q h = omega arith
xor_left (suc n) a b c p q h = omega (
  arith,
  differ_left (a % 2) (b % 2) (c % 2) (omega arith) (omega arith) (omega arith) low,
  xor_left n (a / 2) (b / 2) (c / 2) (omega arith) (omega arith) high,
)
  where
    low : differ (c % 2) (a % 2) ≡ differ (c % 2) (b % 2)
    low = omega (
      arith,
      bit_xor_step c a,
      bit_xor_step c b,
      differ-lt (c % 2) (a % 2) (omega arith) (omega arith),
      differ-lt (c % 2) (b % 2) (omega arith) (omega arith),
    )

    high : bit_xor (c / 2) (a / 2) ≡ bit_xor (c / 2) (b / 2)
    high = omega (arith, bit_xor_step c a, bit_xor_step c b, low)

-- `^` by one operand can be undone in the other.
pub bit_xor-right_injective : (a b c : ℕ) → bit_xor a c ≡ bit_xor b c → a ≡ b
bit_xor-right_injective a b c h = xor_right (a + b) a b c (omega arith) (omega arith) h

pub bit_xor-left_injective : (a b c : ℕ) → bit_xor c a ≡ bit_xor c b → a ≡ b
bit_xor-left_injective a b c h = xor_left (a + b) a b c (omega arith) (omega arith) h

-- `^` of two numbers of `w` bits has `w` bits.
pub bit_xor-lt : (w a b : ℕ) → a < 2 ^ w → b < 2 ^ w → bit_xor a b < 2 ^ w
bit_xor-lt zero a b p q =
    let ea : a ≡ 0 = omega arith in let eb : b ≡ 0 = omega arith in rw (ea, eb) (omega arith)
bit_xor-lt (suc w) a b p q = omega (
  arith,
  pow-suc 2 w,
  bit_xor_step a b,
  differ-lt (a % 2) (b % 2) (omega arith) (omega arith),
  bit_xor-lt w (a / 2) (b / 2) (omega (arith, pow-suc 2 w)) (omega (arith, pow-suc 2 w)),
)

pub bit_xor-zero : (a : ℕ) → bit_xor a 0 ≡ a
bit_xor-zero a = bit_xor-zero_fuel a a (omega arith)

differ-one : (a : ℕ) → a < 2 → differ a 1 ≡ 1 - a
differ-one zero h = refl
differ-one (suc zero) h = refl
differ-one (suc (suc a)) h = absurd (omega arith)

-- `^` with `w` ones turns each of `w` bits.
pub bit_xor-ones : (w x : ℕ) → x < 2 ^ w → bit_xor x (2 ^ w - 1) ≡ 2 ^ w - 1 - x
bit_xor-ones zero x h = let e : x ≡ 0 = omega arith in rw e refl
bit_xor-ones (suc w) x h = omega (
  arith,
  pow-suc 2 w,
  bit_xor_step x (2 ^ suc w - 1),
  half,
  low,
  differ-one (x % 2) (omega arith),
  bit_xor-ones w (x / 2) (omega (arith, pow-suc 2 w)),
)
  where
    positive : (w : ℕ) → 1 ≤ 2 ^ w
    positive zero = omega arith
    positive (suc w) = omega (arith, pow-suc 2 w, positive w)

    half : bit_xor (x / 2) ((2 ^ suc w - 1) / 2) ≡ bit_xor (x / 2) (2 ^ w - 1)
    half = ap (bit_xor (x / 2)) (omega (arith, pow-suc 2 w, positive w))

    low : differ (x % 2) ((2 ^ suc w - 1) % 2) ≡ differ (x % 2) 1
    low = ap (differ (x % 2)) (omega (arith, pow-suc 2 w, positive w))

-- The test `if (flags & flag)` makes.
abbrev pub has_flag : ℕ → ℕ → Bool
has_flag flags flag = not (bit_and flags flag == 0)
