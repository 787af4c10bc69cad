-- ===== src/Sha256/Words.antt =====
-- The constants, the rotation and the functions on words of src/sha256.h against those of FIPS 180-4.
use diffsecp.Prelude.{
  ℕ, ◌-◌, ◌*◌, ◌/◌, ◌%◌, ◌^◌, ◌+◌, ◌<◌, bit_and, bit_or, bit_xor, bit_or_fields, bit_or_comm,
  bit_xor-ones,
}
use diffsecp.Prelude.{◌≡◌, refl, arith}
use diffsecp.Sha256.{sha256_k, sha256_rotr}
use diffsecp.Sha256.Standard.{
  rotr, cube_root, fraction_bits, primes, constants, ch, big_sigma0, big_sigma1, sigma0, sigma1,
}

pub sha256_k-constants : sha256_k ≡ constants primes
unfolding constants fraction_bits cube_root
sha256_k-constants = refl

-- The two shifted parts have no bit in common.
rotation :
    (n k x : ℕ)
    → x * 2 ^ k % 2 ^ 32 ≡ x % 2 ^ n * 2 ^ k
    → x / 2 ^ n < 2 ^ k
    → bit_or (x / 2 ^ n) (x * 2 ^ k % 2 ^ 32) ≡ x % 2 ^ n * 2 ^ k + x / 2 ^ n
rotation n k x shifted h =
    rw (shifted, bit_or_comm (x / 2 ^ n) (x % 2 ^ n * 2 ^ k))
      (bit_or_fields k (x % 2 ^ n) (x / 2 ^ n) h)

module _ (x : ℕ) (h : x < 2 ^ 32) where
  rotr_2 : sha256_rotr x 2 ≡ rotr 2 x
  unfolding sha256_rotr rotr
  rotr_2 = rotation 2 30 x (omega (arith, h)) (omega (arith, h))

  rotr_6 : sha256_rotr x 6 ≡ rotr 6 x
  unfolding sha256_rotr rotr
  rotr_6 = rotation 6 26 x (omega (arith, h)) (omega (arith, h))

  rotr_7 : sha256_rotr x 7 ≡ rotr 7 x
  unfolding sha256_rotr rotr
  rotr_7 = rotation 7 25 x (omega (arith, h)) (omega (arith, h))

  rotr_11 : sha256_rotr x 11 ≡ rotr 11 x
  unfolding sha256_rotr rotr
  rotr_11 = rotation 11 21 x (omega (arith, h)) (omega (arith, h))

  rotr_13 : sha256_rotr x 13 ≡ rotr 13 x
  unfolding sha256_rotr rotr
  rotr_13 = rotation 13 19 x (omega (arith, h)) (omega (arith, h))

  rotr_17 : sha256_rotr x 17 ≡ rotr 17 x
  unfolding sha256_rotr rotr
  rotr_17 = rotation 17 15 x (omega (arith, h)) (omega (arith, h))

  rotr_18 : sha256_rotr x 18 ≡ rotr 18 x
  unfolding sha256_rotr rotr
  rotr_18 = rotation 18 14 x (omega (arith, h)) (omega (arith, h))

  rotr_19 : sha256_rotr x 19 ≡ rotr 19 x
  unfolding sha256_rotr rotr
  rotr_19 = rotation 19 13 x (omega (arith, h)) (omega (arith, h))

  rotr_22 : sha256_rotr x 22 ≡ rotr 22 x
  unfolding sha256_rotr rotr
  rotr_22 = rotation 22 10 x (omega (arith, h)) (omega (arith, h))

  rotr_25 : sha256_rotr x 25 ≡ rotr 25 x
  unfolding sha256_rotr rotr
  rotr_25 = rotation 25 7 x (omega (arith, h)) (omega (arith, h))

  pub rotations-big_sigma0 :
      bit_xor (bit_xor (sha256_rotr x 2) (sha256_rotr x 13)) (sha256_rotr x 22) ≡ big_sigma0 x
  unfolding big_sigma0
  rotations-big_sigma0 = rw (rotr_2, rotr_13, rotr_22) refl

  pub rotations-big_sigma1 :
      bit_xor (bit_xor (sha256_rotr x 6) (sha256_rotr x 11)) (sha256_rotr x 25) ≡ big_sigma1 x
  unfolding big_sigma1
  rotations-big_sigma1 = rw (rotr_6, rotr_11, rotr_25) refl

  pub rotations-sigma0 :
      bit_xor (bit_xor (sha256_rotr x 7) (sha256_rotr x 18)) (x / 2 ^ 3) ≡ sigma0 x
  unfolding sigma0
  rotations-sigma0 = rw (rotr_7, rotr_18) refl

  pub rotations-sigma1 :
      bit_xor (bit_xor (sha256_rotr x 17) (sha256_rotr x 19)) (x / 2 ^ 10) ≡ sigma1 x
  unfolding sigma1
  rotations-sigma1 = rw (rotr_17, rotr_19) refl

  pub choice-ch : (y z : ℕ) → bit_xor (bit_and x y) (bit_and (bit_xor x (2 ^ 32 - 1)) z) ≡ ch x y z
  unfolding ch
  choice-ch y z = rw (bit_xor-ones 32 x h) refl
