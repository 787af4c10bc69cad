-- ===== src/Group/Api.antt =====
-- The functions of libsecp that src/targets/group.c calls, which are not in this repository: a
-- parameter of the model. Each returns `none` where a VERIFY build aborts, and what it writes
-- otherwise, its `int` first.
use diffsecp.Prelude.{ℕ, ℤ, Option}
use diffsecp.Field.Api.{FieldApi}
use diffsecp.Scalar.Api.{ScalarApi}

pub record GroupApi : Type 1 where
  pub field : FieldApi
  pub scalar : ScalarApi
  -- Points in affine and in Jacobian coordinates, and the members of these that the target reads or
  -- writes.
  pub Ge : Type 0
  pub Gej : Type 0
  pub ge_x : Ge → field.Fe
  pub ge_y : Ge → field.Fe
  pub ge_infinity : Ge → ℕ
  pub ge_with : Ge → field.Fe → field.Fe → Ge
  pub gej_z : Gej → field.Fe
  pub gej_infinity : Gej → ℕ
  pub Scratch : Type 0
  pub ge_set_gej_var : Gej → Option Ge
  pub gej_set_infinity : Option Gej
  pub gej_set_ge : Ge → Option Gej
  pub ge_set_xo_var : field.Fe → ℕ → Option (ℤ × Ge)
  pub ecmult_gen_gej : scalar.Sc → Option Gej
  -- Without `rzr` and with it.
  pub gej_add_var : Gej → Gej → Option Gej
  pub gej_add_var_rzr : Gej → Gej → Option (Gej × field.Fe)
  pub gej_add_ge : Gej → Ge → Option Gej
  pub gej_add_ge_var : Gej → Ge → Option Gej
  pub gej_add_ge_var_rzr : Gej → Ge → Option (Gej × field.Fe)
  pub gej_add_zinv_var : Gej → Ge → field.Fe → Option Gej
  pub gej_double : Gej → Option Gej
  pub gej_double_var : Gej → Option (Gej × field.Fe)
  pub gej_neg : Gej → Option Gej
  pub gej_rescale : Gej → field.Fe → Option Gej
  pub ge_mul_lambda : Ge → Option Ge
  -- The last scalar is left out for `NULL`.
  pub ecmult : Gej → scalar.Sc → Option scalar.Sc → Option Gej
  pub ecmult_const_gej : Ge → scalar.Sc → Option Gej
  -- Without a denominator for `NULL`; the last argument is `known_on_curve`.
  pub ecmult_const_xonly : field.Fe → Option field.Fe → scalar.Sc → ℕ → Option (ℤ × field.Fe)
  -- `none` inside for `NULL`.
  pub scratch_space_create : ℕ → Option (Option Scratch)
  pub scratch_space_destroy : Option Scratch → Option (Unit {0})
  -- The callback is a function of the index; `none` inside is its failure.
  pub ecmult_multi_var :
      Option Scratch
      → Option scalar.Sc
      → (ℕ → Option (Option (scalar.Sc × Ge)))
      → ℕ
      → Option (ℤ × Gej)
  -- The first points of an array.
  pub ge_set_all_gej_var : (ℕ → Gej) → ℕ → Option (ℕ → Ge)
  pub ge_set_all_gej : (ℕ → Gej) → ℕ → Option (ℕ → Ge)
  pub gej_is_infinity : Gej → Option ℤ
  pub gej_eq_var : Gej → Gej → Option ℤ
  pub gej_eq_ge_var : Gej → Ge → Option ℤ
  pub ge_eq_var : Ge → Ge → Option ℤ
  pub ge_is_valid_var : Ge → Option ℤ
  pub gej_eq_x_var : field.Fe → Gej → Option ℤ
  pub ge_x_on_curve_var : field.Fe → Option ℤ
  pub ge_x_frac_on_curve_var : field.Fe → field.Fe → Option ℤ
