-- ===== src/Ecdsa/Api.antt =====
-- The functions of libsecp that src/targets/ecdsa.c calls, which are not in this repository: a
-- parameter of the model. Each returns `none` where it aborts, and what it writes otherwise, its
-- `int` first.
use diffsecp.Prelude.{ℕ, ℤ, List, Option, Bool}
use diffsecp.Field.Api.{FieldApi}
use diffsecp.Scalar.Api.{ScalarApi}

-- A nonce function with the bytes or the `struct` that its pointer gives it: of a message, a key, the
-- name of an algorithm and the number of the attempt.
abbrev pub NonceFunction : Type 0
NonceFunction = List ℕ → List ℕ → Option (List ℕ) → ℕ → Option (ℤ × List ℕ)

-- What signing is given for `noncefp`: `NULL`, `secp256k1_nonce_function_rfc6979`, or another; the
-- first two with the extra bytes, where these are not `NULL`.
pub data Nonce : Type 0 where
  default_nonce : Option (List ℕ) → Nonce
  rfc6979 : Option (List ℕ) → Nonce
  custom : NonceFunction → Nonce

pub record EcdsaApi : Type 1 where
  pub field : FieldApi
  pub scalar : ScalarApi
  pub Pubkey : Type 0
  pub Signature : Type 0
  pub Ge : Type 0
  pub Gej : Type 0
  -- `secp256k1_ecdsa_const_order_as_fe`
  pub const_order_as_fe : field.Fe
  pub pubkey_create : List ℕ → Option (ℤ × Pubkey)
  pub pubkey_parse : List ℕ → Option (ℤ × Pubkey)
  -- With the size of the buffer, and whether the flag is `SECP256K1_EC_COMPRESSED`.
  pub pubkey_serialize : Pubkey → ℕ → Bool → Option (List ℕ)
  pub sign : List ℕ → List ℕ → Nonce → Option (ℤ × Signature)
  -- With the name of the algorithm and the extra bytes, where these are not `NULL`.
  pub nonce_function_rfc6979 :
      List ℕ → List ℕ → Option (List ℕ) → Option (List ℕ) → ℕ → Option (ℤ × List ℕ)
  pub normalize : Signature → Option (ℤ × Signature)
  -- The same without an output.
  pub is_high : Signature → Option ℤ
  -- With the size of the buffer: the bytes, and the length that is reported.
  pub serialize_der : Signature → ℕ → Option (ℤ × (List ℕ × ℕ))
  pub serialize_compact : Signature → Option (List ℕ)
  pub parse_compact : List ℕ → Option (ℤ × Signature)
  pub parse_der : List ℕ → Option (ℤ × Signature)
  pub parse_der_lax : List ℕ → Option (ℤ × Signature)
  pub verify : Signature → List ℕ → Pubkey → Option ℤ
  pub ge_set_xo_var : field.Fe → ℕ → Option (ℤ × Ge)
  pub gej_set_infinity : Option Gej
  pub gej_set_ge : Ge → Option Gej
  pub ecmult : Gej → scalar.Sc → scalar.Sc → Option Gej
  pub gej_is_infinity : Gej → Option ℤ
  pub ge_set_gej : Gej → Option Ge
  pub pubkey_save : Ge → Option Pubkey
