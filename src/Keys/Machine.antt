-- ===== src/Keys/Machine.antt =====
-- The switch and the loop of `target_keys` in src/targets/keys.c.
use diffsecp.Prelude.{ℕ, ◌*◌, ◌/◌, ◌%◌, ◌^◌, pos, List, Option, none, not, ◌&&◌}
use diffsecp.Prelude.{◌==◌, if◌then◌else◌, replicate, is_nonzero, bit_and}
use diffsecp.Run.{
  M, pure, ◌>>=◌, ◌>>◌, lift, take_bytes, u8, while_input, run_target, put_u8, put_int,
}
use diffsecp.Run.Array.{store}
use diffsecp.Keys.Api.{KeysApi}
use diffsecp.Keys.Target.{
  KeysOp, keys_op, keys_op_count, keys_regs, keys_max_ops, Reg, Regs, keys_sign, keys_take_tweak,
  parse_size, keys_record_reg, keys_ecdh, keys_keypair_tweak, keys_xonly, valid_keys, keys_sort,
  combine_keys, seckey_case, pubkey_case,
}

module _ (api : KeysApi) where
  -- The switch, with `sel`, the registers `a` and `b` and the copy `res` of `*d`; the last case aborts.
  unfoldable pub keys_switch : KeysOp → ℕ → Regs api → Reg api → Reg api → Reg api → M (Reg api)
  keys_switch KeysOp.seckey_load sel reg a b res = do
    sk ← take_bytes 32
    ok ← lift (api.seckey_verify sk)
    put_int ok
    pure (record res { sk = sk })
  keys_switch KeysOp.seckey_negate sel reg a b res = seckey_case api res (api.seckey_negate a.sk)
  keys_switch KeysOp.seckey_tweak_add sel reg a b res = do
    tweak ← keys_take_tweak sel b.sk
    seckey_case api res (api.seckey_tweak_add a.sk tweak)
  keys_switch KeysOp.seckey_tweak_mul sel reg a b res = do
    tweak ← take_bytes 32
    seckey_case api res (api.seckey_tweak_mul a.sk tweak)
  keys_switch KeysOp.pubkey_create sel reg a b res = pubkey_case api res (api.pubkey_create a.sk)
  keys_switch KeysOp.pubkey_parse sel reg a b res = do
    flags ← u8
    ser ← take_bytes (parse_size flags)
    pubkey_case api res (api.pubkey_parse ser (parse_size flags))
  keys_switch KeysOp.pubkey_negate sel reg a b res =
      if is_nonzero a.pk_ok then pubkey_case api res (api.pubkey_negate a.pk) else pure res
  keys_switch KeysOp.pubkey_tweak_add sel reg a b res = do
    tweak ← keys_take_tweak sel b.sk
    if is_nonzero a.pk_ok then pubkey_case api res (api.pubkey_tweak_add a.pk tweak) else pure res
  keys_switch KeysOp.pubkey_tweak_mul sel reg a b res = do
    tweak ← take_bytes 32
    if is_nonzero a.pk_ok then pubkey_case api res (api.pubkey_tweak_mul a.pk tweak) else pure res
  keys_switch KeysOp.pubkey_combine sel reg a b res = do
    flags ← u8
    combine_keys api res (valid_keys api (λ j. bit_and (flags / 2 ^ j) 1 == 1) keys_regs 0 reg)
  keys_switch KeysOp.pubkey_cmp sel reg a b res =
      if is_nonzero a.pk_ok && is_nonzero b.pk_ok
      then (do c ← lift (api.pubkey_cmp a.pk b.pk); put_int (keys_sign c); pure res)
      else pure res
  keys_switch KeysOp.pubkey_sort sel reg a b res = do keys_sort api reg; pure res
  keys_switch KeysOp.keypair_tweak sel reg a b res = do
    tweak ← take_bytes 32
    keys_keypair_tweak api res a.sk tweak
  keys_switch KeysOp.xonly sel reg a b res = do tweak ← take_bytes 32; keys_xonly api res a b tweak
  keys_switch KeysOp.ecdh sel reg a b res =
      if is_nonzero a.pk_ok
      then (do keys_ecdh api a b (not (bit_and sel 128 == 0)); pure res)
      else pure res
  keys_switch KeysOp.op_count sel reg a b res = lift none

  -- A failed operation leaves the object invalid, so it is zeroed.
  unfoldable pub emptied : Reg api → Reg api
  emptied res = if is_nonzero res.pk_ok then res else record res { pk = api.zeroed }

  -- One round of the loop in `target_keys`.
  unfoldable pub keys_step : Regs api → M (Regs api)
  keys_step reg = do
    n ← u8
    let op = n % keys_op_count
    sel ← u8
    let d = sel % keys_regs
    let a = reg ((sel / keys_regs) % keys_regs)
    let b = reg ((sel / (keys_regs * keys_regs)) % keys_regs)
    put_u8 op
    res ← keys_switch (keys_op op) sel reg a b (reg d)
    keys_record_reg api (emptied res)
    pure (store reg d (emptied res))

  -- `target_keys` after its declarations: the registers start as zeros.
  unfoldable pub keys_run : M (Unit {0})
  keys_run =
      while_input keys_max_ops keys_step
        (λ i. record { sk = replicate 32 0; pk = api.zeroed; pk_ok = pos 0 })

  -- `target_keys`: the length of the transcript, and what `out` holds.
  unfoldable pub target_keys : List ℕ → ℕ → List ℕ → ℕ → Option (ℕ × List ℕ)
  target_keys input len out size = run_target keys_run input len out size
