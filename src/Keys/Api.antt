-- ===== src/Keys/Api.antt =====
-- The functions of libsecp that src/targets/keys.c calls, which are not in this repository: a
-- parameter of the model. Each returns `none` where the illegal callback stops it, and what it
-- writes otherwise, its `int` first.
use diffsecp.Prelude.{ℕ, ℤ, List, Option}

-- The hash function that `secp256k1_ecdh` is given: `NULL`, the exported default by its name, or
-- one of the target's own, which returns its `int` and what it writes.
pub data EcdhHash : Type 0 where
  null_hash named_sha256 : EcdhHash
  own_hash : (List ℕ → List ℕ → ℤ × List ℕ) → EcdhHash

pub record KeysApi : Type 1 where
  pub Pubkey : Type 0
  pub Keypair : Type 0
  pub Xonly : Type 0
  -- An object of zero bytes.
  pub zeroed : Pubkey
  pub seckey_verify : List ℕ → Option ℤ
  pub seckey_negate : List ℕ → Option (ℤ × List ℕ)
  pub seckey_tweak_add : List ℕ → List ℕ → Option (ℤ × List ℕ)
  pub seckey_tweak_mul : List ℕ → List ℕ → Option (ℤ × List ℕ)
  pub pubkey_create : List ℕ → Option (ℤ × Pubkey)
  pub pubkey_parse : List ℕ → ℕ → Option (ℤ × Pubkey)
  pub pubkey_negate : Pubkey → Option (ℤ × Pubkey)
  pub pubkey_tweak_add : Pubkey → List ℕ → Option (ℤ × Pubkey)
  pub pubkey_tweak_mul : Pubkey → List ℕ → Option (ℤ × Pubkey)
  pub pubkey_combine : List Pubkey → Option (ℤ × Pubkey)
  pub pubkey_cmp : Pubkey → Pubkey → Option ℤ
  pub pubkey_sort : List Pubkey → Option (ℤ × List Pubkey)
  -- Compressed, with the size of the buffer.
  pub pubkey_serialize : Pubkey → ℕ → Option (List ℕ)
  pub keypair_create : List ℕ → Option (ℤ × Keypair)
  pub keypair_xonly_pub : Keypair → Option (ℤ × Xonly)
  pub keypair_xonly_tweak_add : Keypair → List ℕ → Option (ℤ × Keypair)
  pub keypair_sec : Keypair → Option (List ℕ)
  pub keypair_pub : Keypair → Option Pubkey
  -- The parity first.
  pub xonly_from_pubkey : Pubkey → Option (ℤ × Xonly)
  pub xonly_serialize : Xonly → Option (List ℕ)
  pub xonly_cmp : Xonly → Xonly → Option ℤ
  pub xonly_tweak_add : Xonly → List ℕ → Option (ℤ × Pubkey)
  pub ecdh : EcdhHash → Pubkey → List ℕ → Option (ℤ × List ℕ)
  pub ecdh_hash_function_sha256 : List ℕ → List ℕ → Option (ℤ × List ℕ)
