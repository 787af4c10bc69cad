-- ===== src/Ellswift/Api.antt =====
-- The functions of libsecp that src/targets/ellswift.c calls, which are not in this repository: a
-- parameter of the model. Each returns `none` where it aborts, and what it writes otherwise, its
-- `int` first.
use diffsecp.Prelude.{ℕ, ℤ, List, Option, Bool}
use diffsecp.Field.Api.{FieldApi}

-- `secp256k1_ellswift_xdh_hash_function`: of the shared x, both encodings, and the pointer's bytes,
-- none for `NULL`.
abbrev pub HashFunction : Type 0
HashFunction = List ℕ → List ℕ → List ℕ → List ℕ → Option (ℤ × List ℕ)

pub record EllswiftApi : Type 1 where
  pub field : FieldApi
  pub Pubkey : Type 0
  pub Ge : Type 0
  -- The x coordinate, a member of the `struct`.
  pub x : Ge → field.Fe
  -- `SECP256K1_B`
  pub b : ℕ
  pub pubkey_load : Pubkey → Option (ℤ × Ge)
  -- With the size of the buffer, and whether the flag is `SECP256K1_EC_COMPRESSED`.
  pub pubkey_serialize : Pubkey → ℕ → Bool → Option (List ℕ)
  pub x_on_curve_var : field.Fe → Option ℤ
  pub xswiftec_inv_var : field.Fe → field.Fe → ℕ → Option (ℤ × field.Fe)
  pub ellswift_decode : List ℕ → Option (ℤ × Pubkey)
  pub ellswift_encode : Pubkey → List ℕ → Option (ℤ × List ℕ)
  -- With the extra randomness, where it is not `NULL`.
  pub ellswift_create : List ℕ → Option (List ℕ) → Option (ℤ × List ℕ)
  -- The encodings, the secret key, the party, the hash function and its data.
  pub ellswift_xdh : List ℕ → List ℕ → List ℕ → ℕ → HashFunction → List ℕ → Option (ℤ × List ℕ)
  pub xdh_hash_function_prefix : HashFunction
  pub xdh_hash_function_bip324 : HashFunction
