-- ===== src/Musig/Target.antt =====
-- The functions of src/targets/musig.c before the target.
use diffsecp.Prelude.{ℕ, zero, suc, ◌+◌, ◌%◌, List, [], ◌∷◌, Bool, true, false, not}
use diffsecp.Prelude.{◌==◌, if◌then◌else◌, is_nonzero}
use diffsecp.Run.{M, pure, ◌>>=◌, ◌>>◌, lift, take_bytes, u8, put, put_int}
use diffsecp.Musig.Api.{MusigApi}

abbrev pub musig_max_signers : ℕ
musig_max_signers = 3

-- A signer's `seckey` and `secrand`.
pub record Seeds : Type 0 where
  pub seckey : List ℕ
  pub secrand : List ℕ

-- `struct musig_input`, of whose arrays of keys the first `n` are a list.
pub record MusigInput : Type 0 where
  pub flags : ℕ
  pub victim : ℕ
  pub late : ℕ
  pub msg : List ℕ
  pub extra : List ℕ
  pub tweak0 : List ℕ
  pub tweak1 : List ℕ
  pub seeds : List Seeds
  pub pubnonce : List ℕ
  pub aggnonce : List ℕ
  pub partial_sig : List ℕ

-- The loop over the signers, with those left to go.
unfoldable pub read_seeds : ℕ → M (List Seeds)
read_seeds zero = pure []
read_seeds (suc left) = do
  seckey ← take_bytes 32
  secrand ← take_bytes 32
  rest ← read_seeds left
  pure (record { seckey = seckey; secrand = secrand } ∷ rest)

unfoldable pub musig_read : M MusigInput
musig_read = do
  flags ← u8
  count ← u8
  let n = 1 + count % musig_max_signers
  victim ← u8
  msg ← take_bytes 32
  extra ← take_bytes 32
  tweak0 ← take_bytes 32
  tweak1 ← take_bytes 32
  seeds ← read_seeds n
  pubnonce ← take_bytes 66
  aggnonce ← take_bytes 66
  partial_sig ← take_bytes 32
  late ← u8
  pure (record {
    flags = flags;
    victim = victim % n;
    late = late;
    msg = msg;
    extra = extra;
    tweak0 = tweak0;
    tweak1 = tweak1;
    seeds = seeds;
    pubnonce = pubnonce;
    aggnonce = aggnonce;
    partial_sig = partial_sig;
  })

module _ (api : MusigApi) where
  -- What a signer has after the first loop.
  pub record Signer : Type 0 where
    pub seeds : Seeds
    pub keypair : api.Keypair
    pub pubkey : api.Pubkey

  unfoldable pub musig_record_pubkey : api.Pubkey → M (Unit {0})
  musig_record_pubkey pk = do ser ← lift (api.pubkey_serialize pk 33 true); put ser

  -- The key, which is `*agg` afterwards.
  unfoldable pub musig_record_tweaked : api.Cache → M api.Pubkey
  musig_record_tweaked cache = do
    agg ← lift (api.pubkey_get cache)
    put_int agg.0
    musig_record_pubkey agg.1
    pure agg.1

  -- The loop that sums the secret keys times their coefficients, from `d` on.
  unfoldable pub aggregate_secret :
      api.CacheInternal → List Signer → api.scalar.Sc → M api.scalar.Sc
  aggregate_secret cache_i [] d = pure d
  aggregate_secret cache_i (s ∷ signers) d = do
    pk ← lift (api.pubkey_load s.pubkey)
    a ← lift (api.keyaggcoef cache_i pk.1)
    x ← lift (api.scalar.set_b32 s.seeds.seckey)
    ax ← lift (api.scalar.mul a x.1)
    sum ← lift (api.scalar.add d ax)
    aggregate_secret cache_i signers sum.1

  -- A scalar, negated where the flag is set.
  unfoldable pub negate_if : Bool → api.scalar.Sc → M api.scalar.Sc
  negate_if true d = lift (api.scalar.negate d)
  negate_if false d = pure d

  -- `!xonly || !secp256k1_fe_is_odd(&cache_i.pk.y)`
  unfoldable pub final_negation : Bool → api.field.Fe → M Bool
  final_negation xonly y =
      if xonly then (do odd ← lift (api.field.is_odd y); pure (not (is_nonzero odd))) else pure true

  -- `tweak32`
  unfoldable pub musig_cancel_tweak : api.Cache → List Signer → Bool → M (List ℕ)
  musig_cancel_tweak cache signers xonly = do
    cache_i ← lift (api.keyagg_cache_load cache)
    d0 ← lift (api.scalar.set_int 0)
    d1 ← aggregate_secret cache_i.1 signers d0
    d2 ← negate_if (not (api.cache_parity_acc cache_i.1 == 0)) d1
    d3 ← lift (api.scalar.add d2 (api.cache_tweak cache_i.1))
    y ← lift (api.field.normalize_var (api.cache_pk_y cache_i.1))
    flip ← final_negation xonly y
    d4 ← negate_if flip d3.1
    lift (api.scalar.get_b32 d4)
