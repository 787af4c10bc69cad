-- ===== src/Sha256/Standard.antt =====
-- The compression function as FIPS 180-4 defines it, with named working variables and a message schedule
-- given by its equations. Nothing of src/sha256.h is used: the constants are computed from what the
-- standard says they are, and a rotation is the arithmetic of its definition.
use diffsecp.Prelude.{
  ℕ, zero, suc, ◌+◌, ◌-◌, ◌*◌, ◌/◌, ◌%◌, ◌^◌, ◌≤◌, ◌<◌, List, [], ◌∷◌, bit_and, bit_xor, get_or,
  leb, if◌then◌else◌, take, drop, All,
}
use diffsecp.Prelude.{◌≡◌}

-- Section 3.2: the circular right shift, the low n bits of a word moving to its top.
unfoldable pub rotr : ℕ → ℕ → ℕ
rotr n x = x % 2 ^ n * 2 ^ (32 - n) + x / 2 ^ n

-- Section 4.1.2: the six functions on words.
unfoldable pub ch : ℕ → ℕ → ℕ → ℕ
ch x y z = bit_xor (bit_and x y) (bit_and (2 ^ 32 - 1 - x) z)

unfoldable pub maj : ℕ → ℕ → ℕ → ℕ
maj x y z = bit_xor (bit_xor (bit_and x y) (bit_and x z)) (bit_and y z)

unfoldable pub big_sigma0 : ℕ → ℕ
big_sigma0 x = bit_xor (bit_xor (rotr 2 x) (rotr 13 x)) (rotr 22 x)

unfoldable pub big_sigma1 : ℕ → ℕ
big_sigma1 x = bit_xor (bit_xor (rotr 6 x) (rotr 11 x)) (rotr 25 x)

unfoldable pub sigma0 : ℕ → ℕ
sigma0 x = bit_xor (bit_xor (rotr 7 x) (rotr 18 x)) (x / 2 ^ 3)

unfoldable pub sigma1 : ℕ → ℕ
sigma1 x = bit_xor (bit_xor (rotr 17 x) (rotr 19 x)) (x / 2 ^ 10)

-- The greatest `r + d` with `d` of `bits` bits whose cube is at most `n`.
unfoldable pub cube_root : ℕ → ℕ → ℕ → ℕ
cube_root zero n r = r
cube_root (suc bits) n r = cube_root bits n (if leb ((r + 2 ^ bits) ^ 3) n then r + 2 ^ bits else r)

-- Section 4.2.2: the first 32 bits of the fractional part of the cube root of a prime.
unfoldable pub fraction_bits : ℕ → ℕ
fraction_bits p = cube_root 36 (p * 2 ^ 96) 0 % 2 ^ 32

-- The first sixty-four primes.
abbrev pub primes : List ℕ
primes =
    2 ∷ 3 ∷ 5 ∷ 7 ∷ 11 ∷ 13 ∷ 17 ∷ 19 ∷ 23 ∷ 29 ∷ 31 ∷ 37 ∷ 41 ∷ 43 ∷ 47 ∷ 53 ∷ 59 ∷ 61 ∷ 67 ∷ 71
    ∷ 73 ∷ 79 ∷ 83 ∷ 89 ∷ 97 ∷ 101 ∷ 103 ∷ 107 ∷ 109 ∷ 113 ∷ 127 ∷ 131 ∷ 137 ∷ 139 ∷ 149 ∷ 151 ∷ 157
    ∷ 163 ∷ 167 ∷ 173 ∷ 179 ∷ 181 ∷ 191 ∷ 193 ∷ 197 ∷ 199 ∷ 211 ∷ 223 ∷ 227 ∷ 229 ∷ 233 ∷ 239 ∷ 241
    ∷ 251 ∷ 257 ∷ 263 ∷ 269 ∷ 271 ∷ 277 ∷ 281 ∷ 283 ∷ 293 ∷ 307 ∷ 311 ∷ []

-- K_0, K_1, and so on.
unfoldable pub constants : List ℕ → List ℕ
constants [] = []
constants (p ∷ rest) = fraction_bits p ∷ constants rest

-- Section 6.2.2: a..h.
pub record Vars : Type 0 where
  pub a : ℕ
  pub b : ℕ
  pub c : ℕ
  pub d : ℕ
  pub e : ℕ
  pub f : ℕ
  pub g : ℕ
  pub h : ℕ

unfoldable pub words : Vars → List ℕ
words v = v.a ∷ v.b ∷ v.c ∷ v.d ∷ v.e ∷ v.f ∷ v.g ∷ v.h ∷ []

-- The eight variables are words of 32 bits.
abbrev pub IsWords : Vars → Type 0
IsWords v = All (λ x. x < 2 ^ 32) (words v)

-- Step 3 for one t, with K_t and W_t.
unfoldable pub fips_round : Vars → ℕ → ℕ → Vars
fips_round v k w =
    let t1 = (v.h + big_sigma1 v.e + ch v.e v.f v.g + k + w) % 2 ^ 32 in
    let t2 = (big_sigma0 v.a + maj v.a v.b v.c) % 2 ^ 32 in
    record {
      a = (t1 + t2) % 2 ^ 32;
      b = v.a;
      c = v.b;
      d = v.c;
      e = (v.d + t1) % 2 ^ 32;
      f = v.e;
      g = v.f;
      h = v.g;
    }

-- Step 3 from t on, with the rounds left.
unfoldable pub fips_rounds : ℕ → ℕ → (ℕ → ℕ) → Vars → Vars
fips_rounds zero t w v = v
fips_rounds (suc left) t w v =
    fips_rounds left (t + 1) w (fips_round v (get_or (constants primes) t 0) (w t))

-- Step 4: the next hash value.
unfoldable pub fips_block : (ℕ → ℕ) → Vars → Vars
fips_block w s =
    let v = fips_rounds 64 0 w s in
    record {
      a = (s.a + v.a) % 2 ^ 32;
      b = (s.b + v.b) % 2 ^ 32;
      c = (s.c + v.c) % 2 ^ 32;
      d = (s.d + v.d) % 2 ^ 32;
      e = (s.e + v.e) % 2 ^ 32;
      f = (s.f + v.f) % 2 ^ 32;
      g = (s.g + v.g) % 2 ^ 32;
      h = (s.h + v.h) % 2 ^ 32;
    }

-- Section 5.2.1: a word of the message, the first byte its highest.
unfoldable pub message_word : List ℕ → ℕ → ℕ
message_word block t =
    get_or block (4 * t) 0 * 2 ^ 24
    + get_or block (4 * t + 1) 0 * 2 ^ 16
    + get_or block (4 * t + 2) 0 * 2 ^ 8
    + get_or block (4 * t + 3) 0

-- Step 1: the message schedule.
pub record IsSchedule (block : List ℕ) (w : ℕ → ℕ) : Type 0 where
  pub first : (t : ℕ) → t < 16 → w t ≡ message_word block t
  pub next :
      (t : ℕ)
      → 16 ≤ t
      → t < 64
      → w t ≡ (sigma1 (w (t - 2)) + w (t - 7) + sigma0 (w (t - 15)) + w (t - 16)) % 2 ^ 32

-- Section 6.2.2 for that many blocks: from the hash value before to the one after.
pub data IsHash : ℕ → List ℕ → Vars → Vars → Type 0 where
  no_block : (blocks : List ℕ) (s : Vars) → IsHash 0 blocks s s
  next_block :
      (n : ℕ) (blocks : List ℕ) (s s' : Vars) (w : ℕ → ℕ)
      → IsSchedule (take 64 blocks) w
      → IsHash n (drop 64 blocks) (fips_block w s) s'
      → IsHash (suc n) blocks s s'
