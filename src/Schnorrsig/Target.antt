-- ===== src/Schnorrsig/Target.antt =====
-- The definitions of src/targets/schnorrsig.c.
use diffsecp.Prelude.{ℕ, ◌%◌, pos, List, [], ◌∷◌, ◌++◌, Option, none, some, Bool, true, false}
use diffsecp.Prelude.{
  ◌==◌, if◌then◌else◌, get_or, take, drop, replicate, is_nonzero, bit_and, bit_xor, has_flag,
}
use diffsecp.Run.{M, pure, ◌>>=◌, ◌>>◌, lift, take_bytes, u8, put, put_int}
use diffsecp.Run.Mutate.{xor_at}
use diffsecp.Schnorrsig.Api.{SchnorrsigApi, ExtraParams, NonceFunction}

-- `enum schnorrsig_mode`
abbrev pub schnorrsig_sign : ℕ
schnorrsig_sign = 1

abbrev pub schnorrsig_aux : ℕ
schnorrsig_aux = 2

abbrev pub schnorrsig_fixed : ℕ
schnorrsig_fixed = 4

abbrev pub schnorrsig_odd : ℕ
schnorrsig_odd = 8

abbrev pub schnorrsig_infinity : ℕ
schnorrsig_infinity = 16

abbrev pub schnorrsig_cancel_tweak : ℕ
schnorrsig_cancel_tweak = 32

abbrev pub schnorrsig_tagged : ℕ
schnorrsig_tagged = 64

-- "BIP0340/challenge"
abbrev pub challenge_tag : List ℕ
challenge_tag =
    66 ∷ 73 ∷ 80 ∷ 48 ∷ 51 ∷ 52 ∷ 48 ∷ 47 ∷ 99 ∷ 104 ∷ 97 ∷ 108 ∷ 108 ∷ 101 ∷ 110 ∷ 103 ∷ 101 ∷ []

-- The arrays that the mutations change.
pub record Parts : Type 0 where
  pub sig64 : List ℕ
  pub msg : List ℕ
  pub pk32 : List ℕ

-- The switch on `which`.
unfoldable pub schnorrsig_mutate : Parts → ℕ → ℕ → ℕ → Parts
schnorrsig_mutate p which place mask =
    if which == 0
    then record p { sig64 = xor_at p.sig64 (place % 64) mask }
    else if which == 1
    then record p { msg = xor_at p.msg (place % 32) mask }
    else record p { pk32 = xor_at p.pk32 (place % 32) mask }

-- `data` is the fuzzed nonce.
abbrev pub schnorrsig_fixed_nonce : NonceFunction
schnorrsig_fixed_nonce msg key32 pk32 algo ndata = some (pos 1, ndata)

-- The name in `data`, or `NULL` for an empty one.
abbrev pub nonce_name : List ℕ → Option (List ℕ)
nonce_name name =
    let namelen = get_or name 0 0 % 32 in
    if namelen == 0 then none else some (take namelen (drop 1 name))

-- `cancel`, where it is not `NULL`, replaces the tweak that was read.
abbrev pub cancelled : Option (List ℕ) → List ℕ → List ℕ
cancelled none tweak = tweak
cancelled (some cancel) tweak = cancel

-- The branch where the input does not sign.
unfoldable pub read_parts : List ℕ → M Parts
read_parts msg = do
  pk32 ← take_bytes 32
  sig64 ← take_bytes 64
  pure (record { sig64 = sig64; msg = msg; pk32 = pk32 })

module _ (api : SchnorrsigApi) where
  abbrev pub schnorrsig_tagged_nonce : NonceFunction
  schnorrsig_tagged_nonce msg key32 pk32 algo ndata =
      api.nonce_function_bip340 msg key32 pk32 (nonce_name ndata)

  -- The `int`, and what stands in `d`.
  unfoldable pub schnorrsig_even_key : api.Keypair → ℕ → M (Bool × List ℕ)
  schnorrsig_even_key keypair parity = do
    s ← lift (api.keypair_sec keypair)
    if is_nonzero s.0
        then (if parity == 0
            then pure (true, s.1)
            else (do n ← lift (api.seckey_negate s.1); pure (is_nonzero n.0, n.1)))
        else pure (false, s.1)

  -- The `int`, and what stands in `ed`, which the caller gives.
  unfoldable pub schnorrsig_challenge_key :
      List ℕ → List ℕ → List ℕ → api.Keypair → ℕ → List ℕ → M (Bool × List ℕ)
  schnorrsig_challenge_key ed sig64 msg32 keypair parity pk32 = do
    e ← lift (api.tagged_sha256 challenge_tag (take 32 sig64 ++ (pk32 ++ msg32)))
    if is_nonzero e.0
        then (do
          d ← schnorrsig_even_key keypair parity
          if d.0
              then (do m ← lift (api.seckey_tweak_mul d.1 e.1); pure (is_nonzero m.0, m.1))
              else pure (false, d.1))
        else pure (false, ed)

  -- The `int`, and what becomes of `sig64`.
  unfoldable pub schnorrsig_odd_r : List ℕ → List ℕ → api.Keypair → ℕ → List ℕ → M (Bool × List ℕ)
  schnorrsig_odd_r sig64 msg32 keypair parity pk32 = do
    c ← schnorrsig_challenge_key (replicate 32 0) sig64 msg32 keypair parity pk32
    if c.0
        then (do
          d ← lift (api.seckey_tweak_add c.1 c.1)
          if is_nonzero d.0
              then (do
                n ← lift (api.seckey_negate (drop 32 sig64))
                if is_nonzero n.0
                    then (do
                      s ← lift (api.seckey_tweak_add d.1 n.1)
                      if is_nonzero s.0
                          then pure (true, take 32 sig64 ++ s.1)
                          else pure (false, sig64))
                    else pure (false, sig64))
              else pure (false, sig64))
        else pure (false, sig64)

  unfoldable pub schnorrsig_infinity_r :
      List ℕ → List ℕ → api.Keypair → ℕ → List ℕ → M (Bool × List ℕ)
  schnorrsig_infinity_r sig64 msg32 keypair parity pk32 = do
    c ←
        schnorrsig_challenge_key (drop 32 sig64) (replicate 32 0 ++ drop 32 sig64) msg32 keypair
          parity pk32
    pure (c.0, replicate 32 0 ++ c.1)

  unfoldable pub schnorrsig_record_tweak : api.Xonly → Option (List ℕ) → M (Unit {0})
  schnorrsig_record_tweak internal cancel = do
    fuzzed ← take_bytes 32
    let tweak = cancelled cancel fuzzed
    k ← lift (api.xonly_tweak_add internal tweak)
    put_int k.0
    if is_nonzero k.0
        then (do
          x ← lift (api.xonly_from_pubkey k.1)
          put_int x.0
          if is_nonzero x.0
              then (do
                tweaked32 ← lift (api.xonly_serialize x.1.1)
                put_int (pos x.1.0)
                put tweaked32
                same ← lift (api.xonly_tweak_add_check tweaked32 x.1.0 internal tweak)
                put_int same
                flip ← u8
                place ← u8
                mask ← u8
                other ← lift (
                    api.xonly_tweak_add_check (xor_at tweaked32 (place % 32) mask)
                      (bit_xor x.1.0 (bit_and flip 1)) internal tweak)
                put_int other)
              else pure tt)
        else (do
          tweaked32 ← lift (api.xonly_serialize internal)
          same ← lift (api.xonly_tweak_add_check tweaked32 0 internal tweak)
          put_int same)

  -- `extraparams`, or `NULL` without any of the three modes.
  abbrev pub extraparams : ℕ → List ℕ → Option ExtraParams
  extraparams mode nonce =
      if has_flag mode 70
      then some (record {
        noncefp =
            if has_flag mode schnorrsig_tagged
            then some schnorrsig_tagged_nonce
            else if has_flag mode schnorrsig_fixed
            then some schnorrsig_fixed_nonce
            else none;
        ndata = nonce;
      })
      else none

  -- The part of `schnorrsig_record_custom` for the signer's key pair and x-only key.
  unfoldable pub sign_message :
      ℕ → List ℕ → List ℕ → ℕ → ℕ → Option (api.Keypair × api.Xonly) → M (Unit {0})
  sign_message mode msg nonce place mask none = pure tt
  sign_message mode msg nonce place mask (some (keypair, signer)) = do
    s ← lift (api.sign_custom msg keypair (extraparams mode nonce))
    put_int s.0
    if is_nonzero s.0
        then (do
          put s.1
          v ← lift (api.verify (xor_at s.1 (place % 64) mask) msg signer)
          put_int v)
        else pure tt

  unfoldable pub verify_message : List ℕ → List ℕ → Option api.Xonly → M (Unit {0})
  verify_message sig64 msg none = pure tt
  verify_message sig64 msg (some pk) = do v ← lift (api.verify sig64 msg pk); put_int v

  unfoldable pub schnorrsig_record_custom :
      ℕ → List ℕ → Option api.Xonly → Option (api.Keypair × api.Xonly) → M (Unit {0})
  schnorrsig_record_custom mode sig64 pk signed = do
    msglen ← u8
    msg ← take_bytes msglen
    nonce ← take_bytes 32
    place ← u8
    mask ← u8
    verify_message sig64 msg pk
    sign_message mode msg nonce place mask signed
