-- ===== src/Tests/Bytes.antt =====
-- What the concrete builds of libsecp's arithmetic share.
use diffsecp.Prelude.{
  ℕ, zero, suc, ◌+◌, ◌*◌, ◌/◌, ◌%◌, ℤ, pos, List, [], ◌∷◌, ◌++◌, Option, none, some,
}
use diffsecp.Prelude.{is_nonzero}
use diffsecp.Prelude.{
  ◌≡◌, refl, arith, ◌==◌, if◌then◌else◌, length, length-append, Bool, true, false,
}

pub of_b32 : ℕ → List ℕ → ℕ
of_b32 acc [] = acc
of_b32 acc (b ∷ bs) = of_b32 (acc * 256 + b) bs

-- `n` bytes, the highest first.
pub to_bytes : ℕ → ℕ → List ℕ
to_bytes zero v = []
to_bytes (suc n) v = to_bytes n (v / 256) ++ (v % 256) ∷ []

pub length-to_bytes : (n v : ℕ) → length (to_bytes n v) ≡ n
unfolding to_bytes
length-to_bytes zero v = refl
length-to_bytes (suc n) v =
    omega (
      arith,
      length-append {0} (to_bytes n (v / 256)) ((v % 256) ∷ []),
      length-to_bytes n (v / 256),
    )

-- The 32 bytes of the number that some bytes stand for.
pub b32 : List ℕ → List ℕ
b32 b = to_bytes 32 (of_b32 0 b)

pub length-b32 : (b : List ℕ) → length (b32 b) ≡ 32
unfolding b32
length-b32 b = length-to_bytes 32 (of_b32 0 b)

-- Square and multiply modulo `p`, over the `n` low bits of `e`.
pub power : ℕ → ℕ → ℕ → ℕ → ℕ
power p zero x e = 1
power p (suc n) x e =
    let rest = power p n (x * x % p) (e / 2) in if e % 2 == 1 then x * rest % p else rest

pub bit : Bool → ℤ
bit true = pos 1
bit false = pos 0

-- An abort unless the test passes.
unfoldable pub check {ℓ} : {A : Type ℓ} → Bool → A → Option A
check true a = some a
check false a = none

pub check_passes {ℓ} : {A : Type ℓ} (b : Bool) (a : A) → b ≡ true → check b a ≡ some a
unfolding check
check_passes b a h = rw h refl

pub is_nonzero-bit : (b : Bool) → is_nonzero (bit b) ≡ b
unfolding bit
is_nonzero-bit true = refl
is_nonzero-bit false = refl

pub bit-true : bit true ≡ pos 1
unfolding bit
bit-true = refl
