-- ===== src/Scalar/Contract.antt =====
-- What src/targets/scalar.c relies on of libsecp's scalar module, as its headers document it, for
-- two builds at once: within the documented ranges a call does not abort, and both builds compute
-- the same value.
use diffsecp.Prelude.{ℕ, ◌+◌, ◌-◌, ◌/◌, ◌≤◌, List, ◌≡◌, length}
use diffsecp.Run.Agree.{Both, Shared, Any}
use diffsecp.Scalar.Api.{ScalarApi}

pub record ScalarContract (f g : ScalarApi) : Type 1 where
  -- The builds hold one value.
  pub Value : f.Sc → g.Sc → Type 0
  pub set_int_zero : Both Value (f.set_int 0) (g.set_int 0)
  pub set_b32 :
      (b : List ℕ)
      → length b ≡ 32
      → Both (λ p q. (p.0 ≡ q.0) × Value p.1 q.1) (f.set_b32 b) (g.set_b32 b)
  pub set_b32_seckey :
      (b : List ℕ)
      → length b ≡ 32
      → Both (λ p q. (p.0 ≡ q.0) × Value p.1 q.1) (f.set_b32_seckey b) (g.set_b32_seckey b)
  pub add :
      (a b : f.Sc) (a' b' : g.Sc)
      → Value a a'
      → Value b b'
      → Both (λ p q. (p.0 ≡ q.0) × Value p.1 q.1) (f.add a b) (g.add a' b')
  pub mul :
      (a b : f.Sc) (a' b' : g.Sc) → Value a a' → Value b b' → Both Value (f.mul a b) (g.mul a' b')
  pub negate : (a : f.Sc) (a' : g.Sc) → Value a a' → Both Value (f.negate a) (g.negate a')
  pub half : (a : f.Sc) (a' : g.Sc) → Value a a' → Both Value (f.half a) (g.half a')
  pub inverse : (a : f.Sc) (a' : g.Sc) → Value a a' → Both Value (f.inverse a) (g.inverse a')
  pub inverse_var :
      (a : f.Sc) (a' : g.Sc) → Value a a' → Both Value (f.inverse_var a) (g.inverse_var a')
  pub cond_negate :
      (flag : ℕ) (a : f.Sc) (a' : g.Sc)
      → flag ≤ 1
      → Value a a'
      → Both (λ p q. (p.0 ≡ q.0) × Value p.1 q.1) (f.cond_negate a flag) (g.cond_negate a' flag)
  pub cmov :
      (flag : ℕ) (r a : f.Sc) (r' a' : g.Sc)
      → flag ≤ 1
      → Value r r'
      → Value a a'
      → Both Value (f.cmov r a flag) (g.cmov r' a' flag)
  pub split_128 :
      (a : f.Sc) (a' : g.Sc)
      → Value a a'
      → Both (λ p q. Value p.0 q.0 × Value p.1 q.1) (f.split_128 a) (g.split_128 a')
  pub split_lambda :
      (a : f.Sc) (a' : g.Sc)
      → Value a a'
      → Both (λ p q. Value p.0 q.0 × Value p.1 q.1) (f.split_lambda a) (g.split_lambda a')
  pub mul_shift_var :
      (shift : ℕ) (a b : f.Sc) (a' b' : g.Sc)
      → 256 ≤ shift
      → shift ≤ 512
      → Value a a'
      → Value b b'
      → Both Value (f.mul_shift_var a b shift) (g.mul_shift_var a' b' shift)
  pub get_b32 :
      (a : f.Sc) (a' : g.Sc) → Value a a' → Shared (λ b. length b ≡ 32) (f.get_b32 a) (g.get_b32 a')
  pub is_zero : (a : f.Sc) (a' : g.Sc) → Value a a' → Shared Any (f.is_zero a) (g.is_zero a')
  pub is_one : (a : f.Sc) (a' : g.Sc) → Value a a' → Shared Any (f.is_one a) (g.is_one a')
  pub is_even : (a : f.Sc) (a' : g.Sc) → Value a a' → Shared Any (f.is_even a) (g.is_even a')
  pub is_high : (a : f.Sc) (a' : g.Sc) → Value a a' → Shared Any (f.is_high a) (g.is_high a')
  pub eq :
      (a b : f.Sc) (a' b' : g.Sc) → Value a a' → Value b b' → Shared Any (f.eq a b) (g.eq a' b')
  pub get_bits_var :
      (offset count : ℕ) (a : f.Sc) (a' : g.Sc)
      → 1 ≤ count
      → count ≤ 32
      → offset + count ≤ 256
      → Value a a'
      → Shared Any (f.get_bits_var a offset count) (g.get_bits_var a' offset count)
  -- All the bits lie in one limb of 32.
  pub get_bits_limb32 :
      (offset count : ℕ) (a : f.Sc) (a' : g.Sc)
      → 1 ≤ count
      → count ≤ 32
      → offset + count ≤ 256
      → (offset + count - 1) / 32 ≡ offset / 32
      → Value a a'
      → Shared Any (f.get_bits_limb32 a offset count) (g.get_bits_limb32 a' offset count)
