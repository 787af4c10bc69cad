-- ===== src/Keys/Target.antt =====
-- The definitions of src/targets/keys.c.
use diffsecp.Prelude.{
  ℕ, zero, suc, ◌+◌, ◌/◌, ◌^◌, ℤ, pos, negsuc, List, [], ◌∷◌, ◌++◌, Option, Bool, true, ◌&&◌,
}
use diffsecp.Prelude.{◌==◌, if◌then◌else◌, get_or, take, drop, replicate, is_nonzero, bit_and}
use diffsecp.Run.{M, pure, ◌>>=◌, ◌>>◌, lift, take_bytes, put, put_int}
use diffsecp.Run.Array.{Array}
use diffsecp.Keys.Api.{KeysApi, null_hash, named_sha256, own_hash}

abbrev pub keys_regs : ℕ
keys_regs = 4

abbrev pub keys_max_ops : ℕ
keys_max_ops = 64

pub data KeysOp : Type 0 where
  seckey_load seckey_negate seckey_tweak_add seckey_tweak_mul pubkey_create pubkey_parse : KeysOp
  pubkey_negate pubkey_tweak_add pubkey_tweak_mul pubkey_combine pubkey_cmp pubkey_sort : KeysOp
  keypair_tweak xonly ecdh op_count : KeysOp

-- The enumerators in order, `KEYS_OP_COUNT` left off.
abbrev pub keys_ops : List KeysOp
keys_ops =
    seckey_load ∷ seckey_negate ∷ seckey_tweak_add ∷ seckey_tweak_mul ∷ pubkey_create ∷ pubkey_parse
    ∷ pubkey_negate ∷ pubkey_tweak_add ∷ pubkey_tweak_mul ∷ pubkey_combine ∷ pubkey_cmp
    ∷ pubkey_sort ∷ keypair_tweak ∷ xonly ∷ ecdh ∷ []

abbrev pub keys_op_count : ℕ
keys_op_count = 15

-- `(enum keys_op)op`
abbrev pub keys_op : ℕ → KeysOp
keys_op n = get_or keys_ops n op_count

pub record KeysReg (Pubkey : Type 0) : Type 0 where
  pub sk : List ℕ
  pub pk : Pubkey
  pub pk_ok : ℤ

-- `(c > 0) - (c < 0)`
unfoldable pub keys_sign : ℤ → ℤ
keys_sign (pos zero) = pos 0
keys_sign (pos (suc n)) = pos 1
keys_sign (negsuc n) = negsuc 0

-- `sel & 64`
unfoldable pub keys_take_tweak : ℕ → List ℕ → M (List ℕ)
keys_take_tweak sel sk = if bit_and sel 64 == 0 then take_bytes 32 else pure sk

-- The secret key after `keys_seckey_result`.
unfoldable pub keys_seckey_result : List ℕ → ℤ → M (List ℕ)
keys_seckey_result sk ret = do
  put_int ret
  if is_nonzero ret then pure sk else pure (replicate 32 0)

abbrev pub keys_ecdh_xy : List ℕ → List ℕ → ℤ × List ℕ
keys_ecdh_xy x32 y32 = (pos 1, x32 ++ y32)

abbrev pub keys_ecdh_reject : List ℕ → List ℕ → ℤ × List ℕ
keys_ecdh_reject x32 y32 = (pos 0, [])

-- `n` of `KEYS_PUBKEY_PARSE`
unfoldable pub parse_size : ℕ → ℕ
parse_size flags =
    if bit_and flags 2 == 0 then (if bit_and flags 1 == 0 then 33 else 65) else flags / 2 ^ 2

module _ (api : KeysApi) where
  abbrev pub Reg : Type 0
  Reg = KeysReg api.Pubkey

  abbrev pub Regs : Type 0
  Regs = Array Reg

  unfoldable pub keys_record_pubkey : api.Pubkey → M (Unit {0})
  keys_record_pubkey pk = do ser ← lift (api.pubkey_serialize pk 33); put ser

  unfoldable pub keys_record_reg : Reg → M (Unit {0})
  keys_record_reg reg = do
    put reg.sk
    put_int reg.pk_ok
    if is_nonzero reg.pk_ok then keys_record_pubkey reg.pk else pure tt

  unfoldable pub keys_ecdh : Reg → Reg → Bool → M (Unit {0})
  keys_ecdh a b named = do
    h ← lift (api.ecdh (if named then named_sha256 else null_hash) a.pk b.sk)
    put_int h.0
    if is_nonzero h.0 then put h.1 else pure tt
    p ← lift (api.ecdh (own_hash keys_ecdh_xy) a.pk b.sk)
    put_int p.0
    if is_nonzero p.0
        then (do
          put p.1
          s ← lift (api.ecdh_hash_function_sha256 (take 32 p.1) (drop 32 p.1))
          put_int s.0
          put s.1)
        else pure tt
    q ← lift (api.ecdh (own_hash keys_ecdh_reject) a.pk b.sk)
    put_int q.0

  -- What becomes of `d`.
  unfoldable pub keys_keypair_tweak : Reg → List ℕ → List ℕ → M Reg
  keys_keypair_tweak d sk tweak = do
    k ← lift (api.keypair_create sk)
    put_int k.0
    if is_nonzero k.0
        then (do
          x ← lift (api.keypair_xonly_pub k.1)
          ser ← lift (api.xonly_serialize x.1)
          put_int x.0
          put ser
          t ← lift (api.keypair_xonly_tweak_add k.1 tweak)
          put_int t.0
          if is_nonzero t.0
              then (do
                sec ← lift (api.keypair_sec t.1)
                pk ← lift (api.keypair_pub t.1)
                pure (record { sk = sec; pk = pk; pk_ok = pos 1 }))
              else pure d)
        else pure d

  -- The order of the x-only views, where `b` has a key.
  unfoldable pub keys_xonly_order : api.Xonly → Reg → M (Unit {0})
  keys_xonly_order xa b =
      if is_nonzero b.pk_ok
      then (do
        xb ← lift (api.xonly_from_pubkey b.pk)
        c ← lift (api.xonly_cmp xa xb.1)
        put_int (keys_sign c))
      else pure tt

  -- What becomes of `d`.
  unfoldable pub keys_xonly : Reg → Reg → Reg → List ℕ → M Reg
  keys_xonly d a b tweak =
      if is_nonzero a.pk_ok
      then (do
        xa ← lift (api.xonly_from_pubkey a.pk)
        ser ← lift (api.xonly_serialize xa.1)
        put_int xa.0
        put ser
        keys_xonly_order xa.1 b
        t ← lift (api.xonly_tweak_add xa.1 tweak)
        put_int t.0
        if is_nonzero t.0 then pure (record d { pk = t.1; pk_ok = pos 1 }) else pure d)
      else pure d

  -- The keys of the registers from `j` on, with `left` to go, that are valid and that `mask` picks.
  unfoldable pub valid_keys : (ℕ → Bool) → ℕ → ℕ → Regs → List api.Pubkey
  valid_keys mask zero j reg = []
  valid_keys mask (suc left) j reg =
      let rest = valid_keys mask left (j + 1) reg in
      if mask j && is_nonzero (reg j).pk_ok then (reg j).pk ∷ rest else rest

  unfoldable pub record_pubkeys : List api.Pubkey → M (Unit {0})
  record_pubkeys [] = pure tt
  record_pubkeys (k ∷ ks) = do keys_record_pubkey k; record_pubkeys ks

  -- `keys_sort` on the keys that it collects.
  unfoldable pub sort_keys : List api.Pubkey → M (Unit {0})
  sort_keys [] = pure tt
  sort_keys (k ∷ ks) = do s ← lift (api.pubkey_sort (k ∷ ks)); put_int s.0; record_pubkeys s.1

  unfoldable pub keys_sort : Regs → M (Unit {0})
  keys_sort reg = sort_keys (valid_keys (λ j. true) keys_regs 0 reg)

  -- `res`, with the key and the `int` of a call.
  abbrev pub with_pubkey : Reg → ℤ × api.Pubkey → Reg
  with_pubkey res r = record res { pk = r.1; pk_ok = r.0 }

  -- `KEYS_PUBKEY_COMBINE` on the keys that it collects.
  unfoldable pub combine_keys : Reg → List api.Pubkey → M Reg
  combine_keys res [] = pure res
  combine_keys res (k ∷ ks) = do r ← lift (api.pubkey_combine (k ∷ ks)); pure (with_pubkey res r)

  -- A secret key made of another one.
  abbrev pub seckey_case : Reg → Option (ℤ × List ℕ) → M Reg
  seckey_case res call = do
    r ← lift call
    sk ← keys_seckey_result r.1 r.0
    pure (record res { sk = sk })

  abbrev pub pubkey_case : Reg → Option (ℤ × api.Pubkey) → M Reg
  pubkey_case res call = do r ← lift call; pure (with_pubkey res r)
