-- ===== src/Schnorrsig/Api.antt =====
-- The functions of libsecp that src/targets/schnorrsig.c calls, which are not in this repository: a
-- parameter of the model. Each returns `none` where the illegal callback stops it, and what it
-- writes otherwise, its `int` first.
use diffsecp.Prelude.{ℕ, ℤ, List, Option}

-- `secp256k1_nonce_function_hardened`: of a message, a secret and a public key, the name of an
-- algorithm and the pointer's bytes.
abbrev pub NonceFunction : Type 0
NonceFunction = List ℕ → List ℕ → List ℕ → List ℕ → List ℕ → Option (ℤ × List ℕ)

-- `secp256k1_schnorrsig_extraparams`; the default nonce function is `none`.
pub record ExtraParams : Type 0 where
  pub noncefp : Option NonceFunction
  pub ndata : List ℕ

pub record SchnorrsigApi : Type 1 where
  pub Keypair : Type 0
  pub Xonly : Type 0
  pub Pubkey : Type 0
  pub keypair_create : List ℕ → Option (ℤ × Keypair)
  pub keypair_sec : Keypair → Option (ℤ × List ℕ)
  -- The parity first.
  pub keypair_xonly_pub : Keypair → Option (ℕ × Xonly)
  pub seckey_negate : List ℕ → Option (ℤ × List ℕ)
  pub seckey_tweak_add : List ℕ → List ℕ → Option (ℤ × List ℕ)
  pub seckey_tweak_mul : List ℕ → List ℕ → Option (ℤ × List ℕ)
  pub tagged_sha256 : List ℕ → List ℕ → Option (ℤ × List ℕ)
  pub xonly_parse : List ℕ → Option (ℤ × Xonly)
  pub xonly_serialize : Xonly → Option (List ℕ)
  pub xonly_tweak_add : Xonly → List ℕ → Option (ℤ × Pubkey)
  -- Of the tweaked key's bytes and parity, the internal key and the tweak.
  pub xonly_tweak_add_check : List ℕ → ℕ → Xonly → List ℕ → Option ℤ
  pub xonly_from_pubkey : Pubkey → Option (ℤ × (ℕ × Xonly))
  -- With `aux_rand`, where it is not `NULL`.
  pub sign32 : List ℕ → Keypair → Option (List ℕ) → Option (ℤ × List ℕ)
  pub sign_custom : List ℕ → Keypair → Option ExtraParams → Option (ℤ × List ℕ)
  pub verify : List ℕ → List ℕ → Xonly → Option ℤ
  -- Of a message, both keys and the algorithm's name, where it is not `NULL`; with no data.
  pub nonce_function_bip340 : List ℕ → List ℕ → List ℕ → Option (List ℕ) → Option (ℤ × List ℕ)
