-- ===== src/Digest/Fnv.antt =====
-- FNV-1a, which src/digest.h computes on 64 bits and src/targets/group.c on 32: what it tells apart.
use diffsecp.Prelude.{ℕ, ◌*◌, ◌%◌, ◌<◌, List, [], ◌∷◌, ◌++◌, ◌≡◌, IsByte, All}
use diffsecp.Prelude.{bit_xor, bit_xor-right_injective, bit_xor-left_injective}
use native.Mathlib.Nat.{mod-lt}

-- `h = (h ^ p[i]) * prime` on numbers modulo `m`.
unfoldable pub fnv_step : ℕ → ℕ → ℕ → ℕ → ℕ
fnv_step m prime h b = (bit_xor h b * prime) % m

unfoldable pub fnv_loop : ℕ → ℕ → ℕ → List ℕ → ℕ
fnv_loop m prime h [] = h
fnv_loop m prime h (b ∷ p) = fnv_loop m prime (fnv_step m prime h b) p

-- A word of the hash holds a byte, and a product with the prime determines the factor.
pub record IsHash (m prime : ℕ) : Type 0 where
  pub positive : 0 < m
  pub xor-lt : (h b : ℕ) → h < m → IsByte b → bit_xor h b < m
  pub injective : (x y : ℕ) → x < m → y < m → (x * prime) % m ≡ (y * prime) % m → x ≡ y

module _ (m prime : ℕ) (v : IsHash m prime) where
  step-lt : (h b : ℕ) → fnv_step m prime h b < m
  unfolding fnv_step
  step-lt h b = mod-lt (bit_xor h b * prime) v.positive

  step_state :
      (h h' b : ℕ)
      → h < m
      → h' < m
      → IsByte b
      → fnv_step m prime h b ≡ fnv_step m prime h' b
      → h ≡ h'
  unfolding fnv_step
  step_state h h' b p q r e =
      bit_xor-right_injective h h' b
        (v.injective (bit_xor h b) (bit_xor h' b) (v.xor-lt h b p r) (v.xor-lt h' b q r) e)

  step_byte :
      (h a b : ℕ)
      → h < m
      → IsByte a
      → IsByte b
      → fnv_step m prime h a ≡ fnv_step m prime h b
      → a ≡ b
  unfolding fnv_step
  step_byte h a b p q r e =
      bit_xor-left_injective a b h
        (v.injective (bit_xor h a) (bit_xor h b) (v.xor-lt h a p q) (v.xor-lt h b p r) e)

  loop_state :
      (p : List ℕ) (h h' : ℕ)
      → h < m
      → h' < m
      → All IsByte p
      → fnv_loop m prime h p ≡ fnv_loop m prime h' p
      → h ≡ h'
  unfolding fnv_loop
  loop_state [] h h' l l' bs e = e
  loop_state (b ∷ p) h h' l l' bs e = step_state h h' b l l' bs.0 (
      loop_state p (fnv_step m prime h b) (fnv_step m prime h' b) (step-lt h b) (step-lt h' b) bs.1
        e)

  -- Equal hashes of lists that differ at most in one byte.
  pub loop_byte :
      (pre post : List ℕ) (h a b : ℕ)
      → h < m
      → IsByte a
      → IsByte b
      → All IsByte post
      → fnv_loop m prime h (pre ++ a ∷ post) ≡ fnv_loop m prime h (pre ++ b ∷ post)
      → a ≡ b
  unfolding fnv_loop
  loop_byte [] post h a b l ha hb bs e = step_byte h a b l ha hb (
      loop_state post (fnv_step m prime h a) (fnv_step m prime h b) (step-lt h a) (step-lt h b) bs
        e)
  loop_byte (x ∷ pre) post h a b l ha hb bs e =
      loop_byte pre post (fnv_step m prime h x) a b (step-lt h x) ha hb bs e

  pub loop-lt : (p : List ℕ) (h : ℕ) → h < m → fnv_loop m prime h p < m
  unfolding fnv_loop
  loop-lt [] h l = l
  loop-lt (b ∷ p) h l = loop-lt p (fnv_step m prime h b) (step-lt h b)
