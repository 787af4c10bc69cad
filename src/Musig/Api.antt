-- ===== src/Musig/Api.antt =====
-- The functions of libsecp that src/targets/musig.c calls, which are not in this repository: a
-- parameter of the model. Each returns `none` where the illegal callback stops it, and what it
-- writes otherwise, its `int` first. What is `NULL` or not is an `Option`.
use diffsecp.Prelude.{ℕ, ℤ, List, Option, Bool}
use diffsecp.Field.Api.{FieldApi}
use diffsecp.Scalar.Api.{ScalarApi}

pub record MusigApi : Type 1 where
  pub field : FieldApi
  pub scalar : ScalarApi
  pub Keypair : Type 0
  pub Pubkey : Type 0
  pub Xonly : Type 0
  pub Ge : Type 0
  pub Cache : Type 0
  pub Secnonce : Type 0
  pub Pubnonce : Type 0
  pub Aggnonce : Type 0
  pub Session : Type 0
  pub PartialSig : Type 0
  -- `secp256k1_keyagg_cache_internal`, and the members that the target reads.
  pub CacheInternal : Type 0
  pub cache_pk_y : CacheInternal → field.Fe
  pub cache_parity_acc : CacheInternal → ℕ
  pub cache_tweak : CacheInternal → scalar.Sc
  pub keypair_create : List ℕ → Option (ℤ × Keypair)
  pub keypair_pub : Keypair → Option (ℤ × Pubkey)
  pub pubkey_serialize : Pubkey → ℕ → Bool → Option (List ℕ)
  pub pubkey_load : Pubkey → Option (ℤ × Ge)
  pub pubkey_sort : List Pubkey → Option (ℤ × List Pubkey)
  pub xonly_serialize : Xonly → Option (List ℕ)
  -- The parity first.
  pub xonly_from_pubkey : Pubkey → Option (ℕ × Xonly)
  pub schnorrsig_verify : List ℕ → List ℕ → Xonly → Option ℤ
  pub pubkey_agg : List Pubkey → Option (ℤ × (Xonly × Cache))
  -- Without its outputs.
  pub pubkey_agg_check : List Pubkey → Option ℤ
  pub pubkey_get : Cache → Option (ℤ × Pubkey)
  pub keyagg_cache_load : Cache → Option (ℤ × CacheInternal)
  pub keyaggcoef : CacheInternal → Ge → Option scalar.Sc
  -- The flag is whether there is an output key, which the target overwrites with `pubkey_get`.
  pub pubkey_ec_tweak_add : Bool → Cache → List ℕ → Option (ℤ × Cache)
  pub pubkey_xonly_tweak_add : Bool → Cache → List ℕ → Option (ℤ × Cache)
  pub nonce_gen :
      List ℕ
      → Option (List ℕ)
      → Pubkey
      → Option (List ℕ)
      → Option Cache
      → Option (List ℕ)
      → Option (ℤ × (Secnonce × Pubnonce))
  pub nonce_gen_counter :
      ℕ
      → Keypair
      → Option (List ℕ)
      → Option Cache
      → Option (List ℕ)
      → Option (ℤ × (Secnonce × Pubnonce))
  pub pubnonce_serialize : Pubnonce → Option (List ℕ)
  pub pubnonce_parse : List ℕ → Option (ℤ × Pubnonce)
  pub nonce_agg : List Pubnonce → Option (ℤ × Aggnonce)
  pub aggnonce_parse : List ℕ → Option (ℤ × Aggnonce)
  pub aggnonce_serialize : Aggnonce → Option (List ℕ)
  pub nonce_process : Aggnonce → List ℕ → Cache → Option (ℤ × Session)
  -- The signature, and what the secret nonce becomes.
  pub partial_sign : Secnonce → Keypair → Cache → Session → Option (ℤ × (PartialSig × Secnonce))
  pub partial_sig_serialize : PartialSig → Option (List ℕ)
  pub partial_sig_parse : List ℕ → Option (ℤ × PartialSig)
  pub partial_sig_verify : PartialSig → Pubnonce → Pubkey → Cache → Session → Option ℤ
  pub partial_sig_agg : Session → List PartialSig → Option (ℤ × List ℕ)
