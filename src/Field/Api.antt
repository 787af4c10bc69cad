-- ===== src/Field/Api.antt =====
-- The part of libsecp's field module that src/targets/field.c calls, which is not in this
-- repository: a parameter of the model. Each function returns `none` where a VERIFY build aborts,
-- and the element that it writes through its first argument otherwise.
use diffsecp.Prelude.{ℕ, ℤ, List, Option}

pub record FieldApi : Type 1 where
  pub Fe : Type 0
  pub Storage : Type 0
  pub set_int : ℕ → Option Fe
  pub set_b32_mod : List ℕ → Option Fe
  pub set_b32_limit : List ℕ → Option (ℤ × Fe)
  pub add : Fe → Fe → Option Fe
  pub add_int : Fe → ℕ → Option Fe
  pub mul : Fe → Fe → Option Fe
  pub sqr : Fe → Option Fe
  pub negate_unchecked : Fe → ℕ → Option Fe
  pub mul_int_unchecked : Fe → ℕ → Option Fe
  pub half : Fe → Option Fe
  pub normalize : Fe → Option Fe
  pub normalize_weak : Fe → Option Fe
  pub normalize_var : Fe → Option Fe
  pub inv : Fe → Option Fe
  pub inv_var : Fe → Option Fe
  pub sqrt : Fe → Option (ℤ × Fe)
  pub cmov : Fe → Fe → ℕ → Option Fe
  pub to_storage : Fe → Option Storage
  pub from_storage : Storage → Option Fe
  pub get_b32 : Fe → Option (List ℕ)
  pub normalizes_to_zero : Fe → Option ℤ
  pub normalizes_to_zero_var : Fe → Option ℤ
  pub is_square_var : Fe → Option ℤ
  pub equal : Fe → Fe → Option ℤ
  pub is_zero : Fe → Option ℤ
  pub is_odd : Fe → Option ℤ
  pub cmp_var : Fe → Fe → Option ℤ
