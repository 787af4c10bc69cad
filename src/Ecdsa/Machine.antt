-- ===== src/Ecdsa/Machine.antt =====
-- `target_ecdsa` of src/targets/ecdsa.c.
use diffsecp.Prelude.{ℕ, zero, suc, ◌+◌, ◌/◌, ◌%◌, ℤ, of_bool, List, [], ◌∷◌, Option, none, some}
use diffsecp.Prelude.{
  ◌==◌, ltb, if◌then◌else◌, take, drop, length, replicate, is_nonzero, has_flag, bit_and,
}
use diffsecp.Run.{M, pure, ◌>>=◌, ◌>>◌, lift, take_bytes, u8, input_left, put, put_int, run_target}
use diffsecp.Run.Mutate.{xor_at}
use diffsecp.Ecdsa.Api.{EcdsaApi, default_nonce}
use diffsecp.Ecdsa.Der.{ecdsa_der_max, append_within, ecdsa_der_build}
use diffsecp.Ecdsa.Target.{
  ecdsa_record_pubkey, ecdsa_record_checks, ecdsa_construct, ecdsa_sign_nonce, ecdsa_r_count,
}

-- `enum ecdsa_mode`
abbrev pub ecdsa_sign : ℕ
ecdsa_sign = 1

abbrev pub ecdsa_compressed : ℕ
ecdsa_compressed = 2

abbrev pub ecdsa_ndata : ℕ
ecdsa_ndata = 4

abbrev pub ecdsa_from_r : ℕ
ecdsa_from_r = 8

abbrev pub ecdsa_der : ℕ
ecdsa_der = 16

abbrev pub ecdsa_built_der : ℕ
ecdsa_built_der = 32

abbrev pub ecdsa_with_nonce : ℕ
ecdsa_with_nonce = 64

-- The arrays: of `pkser` its first `pklen` bytes, and of `der` its first `derlen`.
pub record Arrays : Type 0 where
  pub sig64 : List ℕ
  pub msg : List ℕ
  pub pkser : List ℕ
  pub der : List ℕ

-- `pos %= derlen + 1`, and a byte inserted there, within the array.
unfoldable pub insert_byte : List ℕ → ℕ → ℕ → M (List ℕ)
insert_byte der place mask =
    let at = place % (length der + 1) in
    append_within ecdsa_der_max (take at der) (mask ∷ drop at der)

-- The switch on `which`.
unfoldable pub ecdsa_mutate : ℕ → Arrays → ℕ → ℕ → ℕ → M Arrays
ecdsa_mutate pklen a which place mask =
    if which == 0
    then pure (record a { sig64 = xor_at a.sig64 (place % 64) mask })
    else if which == 1
    then pure (record a { msg = xor_at a.msg (place % 32) mask })
    else if which == 2
    then pure (record a { pkser = xor_at a.pkser (place % pklen) mask })
    else if which == 3
    then (if ltb 0 (length a.der)
        then pure (record a { der = xor_at a.der (place % length a.der) mask })
        else pure a)
    else (do der ← insert_byte a.der place mask; pure (record a { der = der }))

-- The loop, with the mutations left to go.
unfoldable pub ecdsa_mutations : ℕ → ℕ → Arrays → M Arrays
ecdsa_mutations pklen zero a = pure a
ecdsa_mutations pklen (suc left) a = do
  which ← u8
  place ← u8
  mask ← u8
  next ← ecdsa_mutate pklen a (which % 5) place mask
  ecdsa_mutations pklen left next

-- What is left of the input, behind `der`.
unfoldable pub read_tail : List ℕ → M (List ℕ)
read_tail der = do tail ← input_left; rest ← take_bytes tail; append_within ecdsa_der_max der rest

-- `ndata`, where the mode asks for it.
unfoldable pub read_ndata : ℕ → M (Option (List ℕ))
read_ndata mode =
    if has_flag mode ecdsa_ndata then (do ndata ← take_bytes 32; pure (some ndata)) else pure none

-- The branch that reads the arrays.
unfoldable pub read_arrays : ℕ → List ℕ → M Arrays
read_arrays pklen msg = do
  pkser ← take_bytes pklen
  sig64 ← take_bytes 64
  pure (record { sig64 = sig64; msg = msg; pkser = pkser; der = [] })

module _ (api : EcdsaApi) where
  -- Signing, and the message that was signed.
  unfoldable pub sign_msg : ℕ → List ℕ → List ℕ → M ((ℤ × api.Signature) × List ℕ)
  sign_msg mode msg seckey = do
    ndata ← read_ndata mode
    if has_flag mode ecdsa_with_nonce
        then ecdsa_sign_nonce api msg seckey ndata
        else (do s ← lift (api.sign msg seckey (default_nonce ndata)); pure (s, msg))

  -- The branch of `ECDSA_SIGN`.
  unfoldable pub sign_arrays : ℕ → ℕ → List ℕ → M Arrays
  sign_arrays mode pklen msg = do
    seckey ← take_bytes 32
    pk ← lift (api.pubkey_create seckey)
    put_int pk.0
    if is_nonzero pk.0
        then (do
          pkser ← lift (api.pubkey_serialize pk.1 pklen (has_flag mode ecdsa_compressed))
          s ← sign_msg mode msg seckey
          put_int s.0.0
          if is_nonzero s.0.0
              then (do
                sig64 ← lift (api.serialize_compact s.0.1)
                put sig64
                pure (record { sig64 = sig64; msg = s.1; pkser = pkser; der = [] }))
              else pure (record { sig64 = replicate 64 0; msg = s.1; pkser = pkser; der = [] }))
        else pure
            (record { sig64 = replicate 64 0; msg = msg; pkser = replicate pklen 0; der = [] })

  -- The branch of `ECDSA_CONSTRUCT`.
  unfoldable pub construct_arrays : ℕ → List ℕ → M Arrays
  construct_arrays pklen msg = do
    kind ← u8
    x32 ← take_bytes 32
    sig64 ← take_bytes 64
    c ←
        ecdsa_construct api (replicate pklen 0) pklen sig64 msg (kind / 2 % ecdsa_r_count)
          (bit_and kind 1) x32
    put_int (of_bool c.0)
    pure (record { sig64 = c.1.1; msg = msg; pkser = c.1.0; der = [] })

  -- `der` before the mutations.
  unfoldable pub first_der : ℕ → List ℕ → M (List ℕ)
  first_der mode sig64 =
      if has_flag mode ecdsa_built_der
      then ecdsa_der_build
      else if has_flag mode ecdsa_der
      then (do
        sig ← lift (api.parse_compact sig64)
        if is_nonzero sig.0
            then (do
              der ← lift (api.serialize_der sig.1 ecdsa_der_max)
              put_int der.0
              pure der.1.0)
            else pure [])
      else pure []

  -- A parsed signature's result, and its checks.
  unfoldable pub check_signature :
      Option (ℤ × api.Signature) → List ℕ → Option api.Pubkey → M (Unit {0})
  check_signature parsed msg pk = do
    sig ← lift parsed
    put_int sig.0
    if is_nonzero sig.0 then ecdsa_record_checks api sig.1 msg pk else pure tt

  -- `pk_ok ? &pk : NULL`
  unfoldable pub check_pubkey : List ℕ → M (Option api.Pubkey)
  check_pubkey pkser = do
    pk ← lift (api.pubkey_parse pkser)
    put_int pk.0
    if is_nonzero pk.0 then (do ecdsa_record_pubkey api pk.1; pure (some pk.1)) else pure none

  -- What is recorded of the arrays.
  unfoldable pub check_arrays : Arrays → List ℕ → M (Unit {0})
  check_arrays a der = do
    pk ← check_pubkey a.pkser
    check_signature (api.parse_compact a.sig64) a.msg pk
    check_signature (api.parse_der der) a.msg pk
    check_signature (api.parse_der_lax der) a.msg pk

  -- `target_ecdsa` after its declarations.
  unfoldable pub ecdsa_run : M (Unit {0})
  ecdsa_run = do
    mode ← u8
    let pklen = if has_flag mode ecdsa_compressed then 33 else 65
    msg ← take_bytes 32
    made ←
        if has_flag mode ecdsa_sign
        then sign_arrays mode pklen msg
        else if has_flag mode ecdsa_from_r
        then construct_arrays pklen msg
        else read_arrays pklen msg
    der ← first_der mode made.sig64
    nmut ← u8
    a ← ecdsa_mutations pklen (nmut % 8) (record made { der = der })
    whole ← read_tail a.der
    check_arrays a whole

  -- `target_ecdsa`: the length of the transcript, and what `out` holds.
  unfoldable pub target_ecdsa : List ℕ → ℕ → List ℕ → ℕ → Option (ℕ × List ℕ)
  target_ecdsa input len out size = run_target ecdsa_run input len out size
