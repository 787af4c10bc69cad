-- ===== src/Ecdsa/Target.antt =====
-- The functions of src/targets/ecdsa.c before the target.
use diffsecp.Prelude.{
  ℕ, ◌+◌, ◌-◌, ◌/◌, ◌%◌, ◌^◌, ℤ, pos, of_bool, List, [], ◌∷◌, ◌++◌, Option, none, some, Bool, true,
  false,
}
use diffsecp.Prelude.{
  ◌==◌, ltb, if◌then◌else◌, take, drop, replicate, is_nonzero, bit_and, has_flag,
}
use diffsecp.Run.{M, pure, ◌>>=◌, ◌>>◌, lift, take_bytes, u8, put, put_int, put_u32}
use diffsecp.Ecdsa.Api.{EcdsaApi, NonceFunction, rfc6979, custom}

-- `enum ecdsa_r`
abbrev pub ecdsa_r_infinity : ℕ
ecdsa_r_infinity = 0

abbrev pub ecdsa_r_above_order : ℕ
ecdsa_r_above_order = 2

abbrev pub ecdsa_r_count : ℕ
ecdsa_r_count = 3

-- `enum ecdsa_nonce_flag`
abbrev pub ecdsa_nonce_zero_s : ℕ
ecdsa_nonce_zero_s = 16

abbrev pub ecdsa_nonce_algo : ℕ
ecdsa_nonce_algo = 32

abbrev pub ecdsa_nonce_default : ℕ
ecdsa_nonce_default = 64

-- "diffsecp/ecdsa16"
abbrev pub algo16_name : List ℕ
algo16_name =
    100 ∷ 105 ∷ 102 ∷ 102 ∷ 115 ∷ 101 ∷ 99 ∷ 112 ∷ 47 ∷ 101 ∷ 99 ∷ 100 ∷ 115 ∷ 97 ∷ 49 ∷ 54 ∷ []

-- A pointer that is `NULL` without a flag.
abbrev pub given_if : Bool → List ℕ → Option (List ℕ)
given_if true b = some b
given_if false b = none

-- `struct ecdsa_nonce`
pub record EcdsaNonce : Type 0 where
  pub fixed0 : List ℕ
  pub fixed1 : List ℕ
  pub n_fixed : ℕ
  pub fail_at : ℕ
  pub algo16 : Option (List ℕ)
  pub ndata : Option (List ℕ)

module _ (api : EcdsaApi) where
  unfoldable pub ecdsa_record_pubkey : api.Pubkey → M (Unit {0})
  ecdsa_record_pubkey pk = do
    short ← lift (api.pubkey_serialize pk 33 true)
    put short
    long ← lift (api.pubkey_serialize pk 65 false)
    put long

  -- `len--` of a `size_t`.
  unfoldable pub ecdsa_record_sig : api.Signature → M (Unit {0})
  ecdsa_record_sig sig = do
    der ← lift (api.serialize_der sig 72)
    put_int der.0
    if is_nonzero der.0
        then (do
          put der.1.0
          again ← lift (api.serialize_der sig ((der.1.1 + 2 ^ 64 - 1) % 2 ^ 64))
          put_int again.0
          put_u32 (again.1.1 % 2 ^ 32))
        else pure tt
    compact ← lift (api.serialize_compact sig)
    put compact

  -- The verifications, where there is a key.
  unfoldable pub verify_both :
      api.Signature → api.Signature → List ℕ → Option api.Pubkey → M (Unit {0})
  verify_both sig low msg none = pure tt
  verify_both sig low msg (some pk) = do
    v ← lift (api.verify sig msg pk)
    put_int v
    w ← lift (api.verify low msg pk)
    put_int w

  unfoldable pub ecdsa_record_checks : api.Signature → List ℕ → Option api.Pubkey → M (Unit {0})
  ecdsa_record_checks sig msg pk = do
    ecdsa_record_sig sig
    low ← lift (api.normalize sig)
    put_int low.0
    high ← lift (api.is_high sig)
    put_int high
    ecdsa_record_sig low.1
    verify_both sig low.1 msg pk

  -- The x of R, where there is one.
  unfoldable pub construct_x : ℕ → List ℕ → M (Option api.field.Fe)
  construct_x kind x32 =
      if kind == ecdsa_r_above_order
      then (do
        low ← lift (api.field.set_b32_mod (replicate 16 0 ++ drop 16 x32))
        sum ← lift (api.field.add low api.const_order_as_fe)
        x ← lift (api.field.normalize_var sum)
        pure (some x))
      else (do
        x ← lift (api.field.set_b32_limit x32)
        if is_nonzero x.0 then pure (some x.1) else pure none)

  -- R and `r` from the x of R, where this is the x of a point.
  unfoldable pub lift_x : Option api.field.Fe → ℕ → M (Option (api.Gej × api.scalar.Sc))
  lift_x none odd = pure none
  lift_x (some x) odd = do
    ge ← lift (api.ge_set_xo_var x odd)
    if is_nonzero ge.0
        then (do
          rj ← lift (api.gej_set_ge ge.1)
          b32 ← lift (api.field.get_b32 x)
          r ← lift (api.scalar.set_b32 b32)
          pure (some (rj, r.1)))
        else pure none

  -- The branches that make `rj` and `r`; none is the early `return 0`.
  unfoldable pub construct_r : ℕ → ℕ → List ℕ → api.scalar.Sc → M (Option (api.Gej × api.scalar.Sc))
  construct_r kind odd x32 r =
      if kind == ecdsa_r_infinity
      then (do rj ← lift api.gej_set_infinity; pure (some (rj, r)))
      else (do x ← construct_x kind x32; lift_x x odd)

  -- The rest: the `int`, and what become of `pkser` and `sig64`.
  unfoldable pub construct_p :
      List ℕ
      → ℕ
      → List ℕ
      → api.scalar.Sc
      → api.scalar.Sc
      → Option (api.Gej × api.scalar.Sc)
      → M (Bool × (List ℕ × List ℕ))
  construct_p pkser pklen sig64 s z none = pure (false, (pkser, sig64))
  construct_p pkser pklen sig64 s z (some (rj, r)) = do
    rinv ← lift (api.scalar.inverse_var r)
    na ← lift (api.scalar.mul s rinv)
    zr ← lift (api.scalar.mul z rinv)
    ng ← lift (api.scalar.negate zr)
    pj ← lift (api.ecmult rj na ng)
    infinite ← lift (api.gej_is_infinity pj)
    if is_nonzero infinite then pure (false, (pkser, sig64)) else (do
      ge ← lift (api.ge_set_gej pj)
      pk ← lift (api.pubkey_save ge)
      ser ← lift (api.pubkey_serialize pk pklen (pklen == 33))
      r32 ← lift (api.scalar.get_b32 r)
      s32 ← lift (api.scalar.get_b32 s)
      pure (true, (ser, r32 ++ s32)))

  unfoldable pub ecdsa_construct :
      List ℕ → ℕ → List ℕ → List ℕ → ℕ → ℕ → List ℕ → M (Bool × (List ℕ × List ℕ))
  ecdsa_construct pkser pklen sig64 msg kind odd x32 = do
    r ← lift (api.scalar.set_b32 (take 32 sig64))
    s ← lift (api.scalar.set_b32 (drop 32 sig64))
    z ← lift (api.scalar.set_b32 msg)
    made ← construct_r kind odd x32 r.1
    construct_p pkser pklen sig64 s.1 z.1 made

  -- A failed attempt writes nothing.
  unfoldable pub ecdsa_nonce : EcdsaNonce → NonceFunction
  ecdsa_nonce n msg32 key32 algo16 counter =
      if counter == n.fail_at
      then some (pos 0, [])
      else if ltb counter n.n_fixed
      then some (pos 1, (if counter == 0 then n.fixed0 else n.fixed1))
      else api.nonce_function_rfc6979 msg32 key32 n.algo16 n.ndata counter

  -- The `int`, and what becomes of `msg32`.
  unfoldable pub ecdsa_zero_s : List ℕ → List ℕ → List ℕ → M (Bool × List ℕ)
  ecdsa_zero_s msg32 seckey k32 = do
    kg ← lift (api.pubkey_create k32)
    if is_nonzero kg.0
        then (do
          ser ← lift (api.pubkey_serialize kg.1 33 true)
          r ← lift (api.scalar.set_b32 (drop 1 ser))
          d ← lift (api.scalar.set_b32 seckey)
          rd ← lift (api.scalar.mul r.1 d.1)
          neg ← lift (api.scalar.negate rd)
          b32 ← lift (api.scalar.get_b32 neg)
          pure (true, b32))
        else pure (false, msg32)

  -- `ECDSA_NONCE_ZERO_S`: the message to sign.
  unfoldable pub chosen_msg : ℕ → List ℕ → List ℕ → List ℕ → M (List ℕ)
  chosen_msg flags msg seckey k32 =
      if has_flag flags ecdsa_nonce_zero_s
      then (do z ← ecdsa_zero_s msg seckey k32; put_int (of_bool z.0); pure z.1)
      else pure msg

  -- What signing returns, and what becomes of `msg`.
  unfoldable pub ecdsa_sign_nonce :
      List ℕ → List ℕ → Option (List ℕ) → M ((ℤ × api.Signature) × List ℕ)
  ecdsa_sign_nonce msg seckey ndata = do
    flags ← u8
    fixed0 ← take_bytes 32
    fixed1 ← take_bytes 32
    if has_flag flags ecdsa_nonce_default
        then (do s ← lift (api.sign msg seckey (rfc6979 ndata)); pure (s, msg))
        else (do
          m ← chosen_msg flags msg seckey fixed0
          s ← lift (
              api.sign m seckey (
                custom (
                  ecdsa_nonce (record {
                    fixed0 = fixed0;
                    fixed1 = fixed1;
                    n_fixed = bit_and flags 3 % 3;
                    fail_at = bit_and (flags / 4) 3;
                    algo16 = given_if (has_flag flags ecdsa_nonce_algo) algo16_name;
                    ndata = ndata;
                  }))))
          pure (s, m))
