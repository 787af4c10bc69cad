-- ===== src/Schnorrsig/Machine.antt =====
-- The signing branch and the whole of `target_schnorrsig` in src/targets/schnorrsig.c.
use diffsecp.Prelude.{ℕ, ◌%◌, pos, of_bool, List, Option, none, some, Bool, true, false}
use diffsecp.Prelude.{if◌then◌else◌, replicate, is_nonzero, has_flag}
use diffsecp.Run.{M, pure, ◌>>=◌, ◌>>◌, lift, take_bytes, u8, run_target, put, put_int}
use diffsecp.Run.Mutate.{mutations}
use diffsecp.Schnorrsig.Api.{SchnorrsigApi}
use diffsecp.Schnorrsig.Target.{
  Parts, schnorrsig_mutate, read_parts, schnorrsig_even_key, schnorrsig_odd_r,
  schnorrsig_infinity_r, schnorrsig_record_tweak, schnorrsig_record_custom,
}
use diffsecp.Schnorrsig.Target.{
  schnorrsig_sign, schnorrsig_aux, schnorrsig_odd, schnorrsig_infinity, schnorrsig_cancel_tweak,
}

-- `cancel_ok ? cancel : NULL`
abbrev pub kept_if : Bool × List ℕ → Option (List ℕ)
kept_if (true, b) = some b
kept_if (false, b) = none

module _ (api : SchnorrsigApi) where
  -- The arrays, the signer's pair and key where `signed_ok`, and `cancel` where `cancel_ok`.
  pub record Signed : Type 0 where
    pub parts : Parts
    pub signer : Option (api.Keypair × api.Xonly)
    pub cancel : Option (List ℕ)

  -- The signature turned into one that BIP340 rejects, where the mode asks for it.
  unfoldable pub spoil : ℕ → List ℕ → List ℕ → api.Keypair → ℕ → List ℕ → M (List ℕ)
  spoil mode sig64 msg keypair parity pk32 =
      if has_flag mode schnorrsig_odd
      then (do
        s ← schnorrsig_odd_r api sig64 msg keypair parity pk32
        put_int (of_bool s.0)
        put s.1
        pure s.1)
      else if has_flag mode schnorrsig_infinity
      then (do
        s ← schnorrsig_infinity_r api sig64 msg keypair parity pk32
        put_int (of_bool s.0)
        put s.1
        pure s.1)
      else pure sig64

  unfoldable pub negated_key : api.Keypair → ℕ → M (Bool × List ℕ)
  negated_key keypair parity = do
    d ← schnorrsig_even_key api keypair parity
    if d.0
        then (do n ← lift (api.seckey_negate d.1); pure (is_nonzero n.0, n.1))
        else pure (false, d.1)

  unfoldable pub make_cancel : ℕ → api.Keypair → ℕ → M (Option (List ℕ))
  make_cancel mode keypair parity =
      if has_flag mode schnorrsig_cancel_tweak
      then (do c ← negated_key keypair parity; put_int (of_bool c.0); pure (kept_if c))
      else pure none

  -- The branch where the input signs.
  unfoldable pub sign_parts : ℕ → List ℕ → M Signed
  sign_parts mode msg = do
    seckey ← take_bytes 32
    aux ← take_bytes 32
    k ← lift (api.keypair_create seckey)
    put_int k.0
    if is_nonzero k.0
        then (do
          x ← lift (api.keypair_xonly_pub k.1)
          pk32 ← lift (api.xonly_serialize x.1)
          put_int (pos x.0)
          put pk32
          s ← lift (api.sign32 msg k.1 (if has_flag mode schnorrsig_aux then some aux else none))
          put_int s.0
          put s.1
          sig64 ← spoil mode s.1 msg k.1 x.0 pk32
          cancel ← make_cancel mode k.1 x.0
          pure (record {
            parts = record { sig64 = sig64; msg = msg; pk32 = pk32 };
            signer = some (k.1, x.1);
            cancel = cancel;
          }))
        else pure (record {
          parts = record { sig64 = replicate 64 0; msg = msg; pk32 = replicate 32 0 };
          signer = none;
          cancel = none;
        })

  unfoldable pub read_signed : List ℕ → M Signed
  read_signed msg = do
    parts ← read_parts msg
    pure (record { parts = parts; signer = none; cancel = none })

  -- The key as it is parsed, and the checks on it; the key where `ok`.
  unfoldable pub check_key : Parts → Option (List ℕ) → M (Option api.Xonly)
  check_key p cancel = do
    k ← lift (api.xonly_parse p.pk32)
    put_int k.0
    if is_nonzero k.0
        then (do
          v ← lift (api.verify p.sig64 p.msg k.1)
          put_int v
          schnorrsig_record_tweak api k.1 cancel
          pure (some k.1))
        else pure none

  -- `target_schnorrsig` after its declarations.
  unfoldable pub schnorrsig_run : M (Unit {0})
  schnorrsig_run = do
    mode ← u8
    msg ← take_bytes 32
    s ← if has_flag mode schnorrsig_sign then sign_parts mode msg else read_signed msg
    nmut ← u8
    p ← mutations 3 schnorrsig_mutate (nmut % 8) s.parts
    pk ← check_key p s.cancel
    schnorrsig_record_custom api mode p.sig64 pk s.signer

  -- `target_schnorrsig`: the length of the transcript, and what `out` holds.
  unfoldable pub target_schnorrsig : List ℕ → ℕ → List ℕ → ℕ → Option (ℕ × List ℕ)
  target_schnorrsig input len out size = run_target schnorrsig_run input len out size
