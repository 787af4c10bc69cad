-- ===== src/Ellswift/Target.antt =====
-- The definitions of src/targets/ellswift.c.
use diffsecp.Prelude.{ℕ, ◌/◌, ◌%◌, pos, List, [], Option, none, some, Bool, true, false}
use diffsecp.Prelude.{◌==◌, if◌then◌else◌, is_nonzero, bit_and, has_flag}
use diffsecp.Run.{M, pure, ◌>>=◌, ◌>>◌, lift, take_bytes, u8, run_target, put, put_int}
use diffsecp.Ellswift.Api.{EllswiftApi, HashFunction}

-- `enum ellswift_flag`
abbrev pub ellswift_aux0 : ℕ
ellswift_aux0 = 1

abbrev pub ellswift_aux1 : ℕ
ellswift_aux1 = 2

abbrev pub ellswift_fuzz_peer : ℕ
ellswift_fuzz_peer = 4

abbrev pub ellswift_encode : ℕ
ellswift_encode = 8

abbrev pub ellswift_prefix : ℕ
ellswift_prefix = 16

abbrev pub ellswift_raw : ℕ
ellswift_raw = 32

abbrev pub ellswift_inverse : ℕ
ellswift_inverse = 64

-- `enum ellswift_inv_kind`
abbrev pub ellswift_inv_u_is_x : ℕ
ellswift_inv_u_is_x = 1

abbrev pub ellswift_inv_r_zero : ℕ
ellswift_inv_r_zero = 2

abbrev pub ellswift_inv_kinds : ℕ
ellswift_inv_kinds = 3

abbrev pub ellswift_xdh_raw : HashFunction
ellswift_xdh_raw x32 ell_a64 ell_b64 extra = some (pos 1, x32)

-- Bytes that are given where a flag asks for them.
abbrev pub given_if : Bool → List ℕ → Option (List ℕ)
given_if true b = some b
given_if false b = none

-- The secret key and the randomness of a party.
unfoldable pub read_party : M (List ℕ × List ℕ)
read_party = do seckey ← take_bytes 32; aux ← take_bytes 32; pure (seckey, aux)

module _ (api : EllswiftApi) where
  unfoldable pub ellswift_raw_x : List ℕ → List ℕ → List ℕ → HashFunction → List ℕ → M (Unit {0})
  ellswift_raw_x ell_a64 ell_b64 seckey hashfp prefix = do
    x ← lift (api.ellswift_xdh ell_a64 ell_b64 seckey 0 ellswift_xdh_raw [])
    put_int x.0
    if is_nonzero x.0
        then (do
          put x.1
          shared ← lift (hashfp x.1 ell_a64 ell_b64 prefix)
          put_int shared.0
          put shared.1)
        else pure tt

  -- What becomes of `x`.
  unfoldable pub ellswift_x_r_zero : api.field.Fe → M api.field.Fe
  ellswift_x_r_zero u = do
    u2 ← lift (api.field.sqr u)
    num ← lift (api.field.mul u2 u)
    num7 ← lift (api.field.add_int num api.b)
    num4 ← lift (api.field.mul_int_unchecked num7 4)
    den3 ← lift (api.field.mul_int_unchecked u2 3)
    den ← lift (api.field.inv_var den3)
    x ← lift (api.field.mul num4 den)
    neg ← lift (api.field.negate_unchecked x 1)
    sum ← lift (api.field.add neg u)
    lift (api.field.normalize_var sum)

  -- The `u` that is read, or 1.
  unfoldable pub inverse_u : List ℕ → M api.field.Fe
  inverse_u u32 = do
    u ← lift (api.field.set_b32_mod u32)
    zero ← lift (api.field.normalizes_to_zero_var u)
    if is_nonzero zero then lift (api.field.set_int 1) else pure u

  -- The switch: `x` and `u`.
  unfoldable pub inverse_inputs : ℕ → api.field.Fe → api.field.Fe → M (api.field.Fe × api.field.Fe)
  inverse_inputs kind x u =
      if kind == ellswift_inv_u_is_x
      then pure (x, x)
      else if kind == ellswift_inv_r_zero
      then (do x' ← ellswift_x_r_zero u; pure (x', u))
      else pure (x, u)

  unfoldable pub ellswift_inv : ℕ → List ℕ → api.Pubkey → M (Unit {0})
  ellswift_inv mode u32 pk = do
    u ← inverse_u u32
    p ← lift (api.pubkey_load pk)
    xu ← inverse_inputs (mode / 8 % ellswift_inv_kinds) (api.x p.1) u
    on_curve ← lift (api.x_on_curve_var xu.0)
    put_int on_curve
    if is_nonzero on_curve
        then (do
          res ← lift (api.xswiftec_inv_var xu.0 xu.1 (bit_and mode 7))
          put_int res.0
          if is_nonzero res.0
              then (do
                norm ← lift (api.field.normalize_var res.1)
                b32 ← lift (api.field.get_b32 norm)
                put b32)
              else pure tt)
        else pure tt

  unfoldable pub ellswift_record_pubkey : api.Pubkey → M (Unit {0})
  ellswift_record_pubkey pk = do ser ← lift (api.pubkey_serialize pk 33 true); put ser

  -- What becomes of `ell64`.
  unfoldable pub ellswift_own_encoding : List ℕ → Option (List ℕ) → List ℕ → M (List ℕ)
  ellswift_own_encoding seckey aux fallback = do
    ell ← lift (api.ellswift_create seckey aux)
    put_int ell.0
    if is_nonzero ell.0 then (do put ell.1; pure ell.1) else pure fallback

  -- The branch of `ELLSWIFT_ENCODE`.
  unfoldable pub encode_again : api.Pubkey → List ℕ → M (Unit {0})
  encode_again pk rnd = do
    ours ← lift (api.ellswift_encode pk rnd)
    put_int ours.0
    put ours.1
    again ← lift (api.ellswift_decode ours.1)
    put_int again.0
    ellswift_record_pubkey again.1

  -- One round of the loop over the parties, in which they derive the secret.
  unfoldable pub derive : List ℕ → List ℕ → List ℕ → ℕ → HashFunction → List ℕ → M (Unit {0})
  derive ours0 ours1 seckey party hashfp prefix = do
    shared ← lift (api.ellswift_xdh ours0 ours1 seckey party hashfp prefix)
    put_int shared.0
    if is_nonzero shared.0 then put shared.1 else pure tt

  -- `hashfp`
  abbrev pub hash_function : Bool → HashFunction
  hash_function true = api.xdh_hash_function_prefix
  hash_function false = api.xdh_hash_function_bip324

  -- `target_ellswift` after its declarations.
  unfoldable pub ellswift_run : M (Unit {0})
  ellswift_run = do
    flags ← u8
    ell ← take_bytes 64
    rnd ← take_bytes 32
    party0 ← read_party
    party1 ← read_party
    prefix ← take_bytes 64
    inv_mode ← u8
    inv_u ← take_bytes 32
    pk ← lift (api.ellswift_decode ell)
    put_int pk.0
    ellswift_record_pubkey pk.1
    if has_flag flags ellswift_inverse then ellswift_inv inv_mode inv_u pk.1 else pure tt
    if has_flag flags ellswift_encode then encode_again pk.1 rnd else pure tt
    ours0 ← ellswift_own_encoding party0.0 (given_if (has_flag flags ellswift_aux0) party0.1) ell
    ours1 ←
        if has_flag flags ellswift_fuzz_peer
        then pure ell
        else ellswift_own_encoding party1.0 (given_if (has_flag flags ellswift_aux1) party1.1) ell
    derive ours0 ours1 party0.0 0 (hash_function (has_flag flags ellswift_prefix)) prefix
    derive ours0 ours1 party1.0 1 (hash_function (has_flag flags ellswift_prefix)) prefix
    if has_flag flags ellswift_raw
        then ellswift_raw_x ours0 ours1 party0.0 (hash_function (has_flag flags ellswift_prefix))
            prefix
        else pure tt

  -- `target_ellswift`: the length of the transcript, and what `out` holds.
  unfoldable pub target_ellswift : List ℕ → ℕ → List ℕ → ℕ → Option (ℕ × List ℕ)
  target_ellswift input len out size = run_target ellswift_run input len out size
