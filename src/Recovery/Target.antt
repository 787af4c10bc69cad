-- ===== src/Recovery/Target.antt =====
-- The definitions of src/targets/recovery.c.
use diffsecp.Prelude.{ℕ, ◌%◌, pos, List, Option, none, some, true, false}
use diffsecp.Prelude.{◌==◌, if◌then◌else◌, replicate, is_nonzero, bit_and, bit_xor}
use diffsecp.Run.{M, pure, ◌>>=◌, ◌>>◌, lift, take_bytes, u8, run_target, put, put_int}
use diffsecp.Run.Mutate.{xor_at, mutations}
use diffsecp.Recovery.Api.{RecoveryApi}

-- The arrays and the id that the mutations change.
pub record Compact : Type 0 where
  pub sig64 : List ℕ
  pub msg : List ℕ
  pub recid : ℕ

-- The switch on `which`.
unfoldable pub mutate : Compact → ℕ → ℕ → ℕ → Compact
mutate c which place mask =
    if which == 0
    then record c { sig64 = xor_at c.sig64 (place % 64) mask }
    else if which == 1
    then record c { msg = xor_at c.msg (place % 32) mask }
    else record c { recid = bit_xor c.recid (bit_and mask 3) }

-- `ndata`, read if `mode & 2`.
unfoldable pub read_ndata : ℕ → M (Option (List ℕ))
read_ndata mode =
    if bit_and mode 2 == 0 then pure none else (do ndata ← take_bytes 32; pure (some ndata))

-- The branch where `mode & 1` is 0.
unfoldable pub read_compact : List ℕ → M Compact
read_compact msg = do
  sig64 ← take_bytes 64
  id ← u8
  pure (record { sig64 = sig64; msg = msg; recid = bit_and id 3 })

module _ (api : RecoveryApi) where
  unfoldable pub recovery_record_pubkey : api.Pubkey → M (Unit {0})
  recovery_record_pubkey pk = do
    short ← lift (api.pubkey_serialize pk 33 true)
    put short
    long ← lift (api.pubkey_serialize pk 65 false)
    put long

  unfoldable pub recovery_record_checks : api.RecoverableSignature → List ℕ → M (Unit {0})
  recovery_record_checks rsig msg = do
    c ← lift (api.recoverable_serialize_compact rsig)
    put c.0
    put_int (pos c.1)
    sig ← lift (api.convert rsig)
    sig64 ← lift (api.serialize_compact sig)
    put sig64
    k ← lift (api.recover rsig msg)
    put_int k.0
    if is_nonzero k.0
        then (do
          recovery_record_pubkey k.1
          verified ← lift (api.verify sig msg k.1)
          put_int verified
          low ← lift (api.normalize sig)
          put_int low.0
          verified_low ← lift (api.verify low.1 msg k.1)
          put_int verified_low)
        else pure tt

  -- The branch where `mode & 1` is set.
  unfoldable pub sign_compact : ℕ → List ℕ → M Compact
  sign_compact mode msg = do
    seckey ← take_bytes 32
    ndata ← read_ndata mode
    s ← lift (api.sign_recoverable msg seckey ndata)
    put_int s.0
    if is_nonzero s.0
        then (do
          c ← lift (api.recoverable_serialize_compact s.1)
          put c.0
          put_int (pos c.1)
          pure (record { sig64 = c.0; msg = msg; recid = c.1 }))
        else pure (record { sig64 = replicate 64 0; msg = msg; recid = 0 })

  -- `target_recovery` after its declarations.
  unfoldable pub recovery_run : M (Unit {0})
  recovery_run = do
    mode ← u8
    msg ← take_bytes 32
    made ← if bit_and mode 1 == 0 then read_compact msg else sign_compact mode msg
    nmut ← u8
    c ← mutations 3 mutate (nmut % 8) made
    rsig ← lift (api.recoverable_parse_compact c.sig64 c.recid)
    put_int rsig.0
    if is_nonzero rsig.0 then recovery_record_checks rsig.1 c.msg else pure tt

  -- `target_recovery`: the length of the transcript, and what `out` holds.
  unfoldable pub target_recovery : List ℕ → ℕ → List ℕ → ℕ → Option (ℕ × List ℕ)
  target_recovery input len out size = run_target recovery_run input len out size
