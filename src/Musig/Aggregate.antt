-- ===== src/Musig/Aggregate.antt =====
-- The flags of src/targets/musig.c, and `target_musig` up to the tweaks of the aggregate key. A part that may
-- end the target returns `none` where it does.
use diffsecp.Prelude.{
  ℕ, zero, suc, ◌+◌, ◌*◌, ◌%◌, ◌^◌, ℤ, List, [], ◌∷◌, Option, none, some, Bool, true, false,
}
use diffsecp.Prelude.{if◌then◌else◌, get_or, is_nonzero, has_flag}
use diffsecp.Run.{M, pure, ◌>>=◌, ◌>>◌, lift, put_int}
use diffsecp.Musig.Api.{MusigApi}
use diffsecp.Musig.Target.{Seeds, Signer, musig_record_tweaked, musig_cancel_tweak}

-- `enum musig_flag`
abbrev pub musig_sort : ℕ
musig_sort = 1

abbrev pub musig_ec_tweak : ℕ
musig_ec_tweak = 2

abbrev pub musig_xonly_tweak : ℕ
musig_xonly_tweak = 4

abbrev pub musig_counter : ℕ
musig_counter = 8

abbrev pub musig_nonce_inputs : ℕ
musig_nonce_inputs = 16

abbrev pub musig_fuzz_pubnonce : ℕ
musig_fuzz_pubnonce = 32

abbrev pub musig_fuzz_aggnonce : ℕ
musig_fuzz_aggnonce = 64

abbrev pub musig_fuzz_partial_sig : ℕ
musig_fuzz_partial_sig = 128

-- `enum musig_late_flag`
abbrev pub musig_cancel_ec : ℕ
musig_cancel_ec = 1

abbrev pub musig_cancel_xonly : ℕ
musig_cancel_xonly = 2

abbrev pub musig_tweak_no_output : ℕ
musig_tweak_no_output = 4

-- `ptrs[i] = p`
unfoldable pub replace {ℓ} : {A : Type ℓ} → List A → ℕ → A → List A
replace [] i p = []
replace (x ∷ xs) zero p = p ∷ xs
replace (x ∷ xs) (suc i) p = x ∷ replace xs i p

-- The rest of the target, unless it ended.
abbrev pub unless_ended : {A : Type 0} → Option A → (A → M (Unit {0})) → M (Unit {0})
unless_ended none rest = pure tt
unless_ended (some a) rest = rest a

-- The first of a list that a loop makes, unless it ended.
abbrev pub add_first : {A : Type 0} → A → Option (List A) → Option (List A)
add_first a none = none
add_first a (some rest) = some (a ∷ rest)

-- `inputs ? p : NULL`
abbrev pub given_if {ℓ} : {A : Type ℓ} → Bool → A → Option A
given_if true a = some a
given_if false a = none

-- `counter << 8 | secrand[j]` for the bytes up to `j`.
unfoldable pub counter_of : ℕ → List ℕ → ℕ
counter_of zero secrand = 0
counter_of (suc j) secrand =
    let counter = counter_of j secrand in (counter * 2 ^ 8 + get_or secrand j 0) % 2 ^ 64

module _ (api : MusigApi) where
  unfoldable pub create_signers : List Seeds → M (Option (List (Signer api)))
  create_signers [] = pure (some [])
  create_signers (s ∷ seeds) = do
    k ← lift (api.keypair_create s.seckey)
    put_int k.0
    if is_nonzero k.0
        then (do
          p ← lift (api.keypair_pub k.1)
          rest ← create_signers seeds
          pure (add_first (record { seeds = s; keypair = k.1; pubkey = p.1 }) rest))
        else pure none

  -- `pubkey_ptrs`, sorted where the flag is set.
  unfoldable pub sort_pointers : ℕ → List api.Pubkey → M (List api.Pubkey)
  sort_pointers flags ptrs =
      if has_flag flags musig_sort
      then (do s ← lift (api.pubkey_sort ptrs); put_int s.0; pure s.1)
      else pure ptrs

  -- A tweak of the aggregate key, which `wanted` asks for, with the cancelling one where the flag says
  -- so: the key and the cache.
  unfoldable pub apply_tweak :
      Bool
      → Bool
      → Bool
      → List ℕ
      → (api.Cache → List ℕ → Option (ℤ × api.Cache))
      → List (Signer api)
      → api.Pubkey × api.Cache
      → M (Option (api.Pubkey × api.Cache))
  apply_tweak wanted cancel xonly tweak add signers (agg, cache) =
      if wanted
      then (do
        t ← if cancel then musig_cancel_tweak api cache signers xonly else pure tweak
        c ← lift (add cache t)
        put_int c.0
        if is_nonzero c.0
            then (do tweaked ← musig_record_tweaked api c.1; pure (some (tweaked, c.1)))
            else pure none)
      else pure (some (agg, cache))
