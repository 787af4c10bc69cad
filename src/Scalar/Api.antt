-- ===== src/Scalar/Api.antt =====
-- The part of libsecp's scalar module that src/targets/scalar.c calls, which is not in this
-- repository: a parameter of the model. Each function returns `none` where a VERIFY build aborts,
-- and what it writes through its pointers, its `int` before that, otherwise.
use diffsecp.Prelude.{ℕ, ℤ, List, Option}

pub record ScalarApi : Type 1 where
  pub Sc : Type 0
  pub set_int : ℕ → Option Sc
  pub set_b32 : List ℕ → Option (ℤ × Sc)
  pub set_b32_seckey : List ℕ → Option (ℤ × Sc)
  pub add : Sc → Sc → Option (ℤ × Sc)
  pub mul : Sc → Sc → Option Sc
  pub negate : Sc → Option Sc
  pub half : Sc → Option Sc
  pub inverse : Sc → Option Sc
  pub inverse_var : Sc → Option Sc
  pub cond_negate : Sc → ℕ → Option (ℤ × Sc)
  pub cmov : Sc → Sc → ℕ → Option Sc
  pub split_128 : Sc → Option (Sc × Sc)
  pub split_lambda : Sc → Option (Sc × Sc)
  pub mul_shift_var : Sc → Sc → ℕ → Option Sc
  pub get_b32 : Sc → Option (List ℕ)
  pub is_zero : Sc → Option ℤ
  pub is_one : Sc → Option ℤ
  pub is_even : Sc → Option ℤ
  pub is_high : Sc → Option ℤ
  pub eq : Sc → Sc → Option ℤ
  pub get_bits_var : Sc → ℕ → ℕ → Option ℕ
  pub get_bits_limb32 : Sc → ℕ → ℕ → Option ℕ
