-- ===== src/Musig/Machine.antt =====
-- `target_musig` of src/targets/musig.c from the nonces on, and as a whole. A part that may end the target returns `none` where it does.
use diffsecp.Prelude.{ℕ, pos, ℤ, List, [], ◌∷◌, Option, none, some, true, false, not}
use diffsecp.Prelude.{if◌then◌else◌, get_elem?, is_nonzero, has_flag}
use diffsecp.Run.{M, pure, ◌>>=◌, ◌>>◌, lift, put, put_int, run_target}
use diffsecp.Musig.Api.{MusigApi}
use diffsecp.Musig.Target.{MusigInput, musig_read, Signer, musig_record_tweaked}
use diffsecp.Musig.Aggregate.{
  musig_ec_tweak, musig_xonly_tweak, musig_counter, musig_nonce_inputs, musig_fuzz_pubnonce,
  musig_fuzz_aggnonce, musig_fuzz_partial_sig, musig_cancel_ec, musig_cancel_xonly,
  musig_tweak_no_output, replace, unless_ended, add_first, given_if, counter_of, create_signers,
  sort_pointers, apply_tweak,
}

module _ (api : MusigApi) where
  -- A signer with its nonces.
  pub record Party : Type 0 where
    pub signer : Signer api
    pub secnonce : api.Secnonce
    pub pubnonce : api.Pubnonce

  unfoldable pub gen_nonce :
      MusigInput → api.Cache → Signer api → Option (ℤ × (api.Secnonce × api.Pubnonce))
  gen_nonce mi cache s =
      if has_flag mi.flags musig_counter
      then api.nonce_gen_counter (counter_of 8 s.seeds.secrand) s.keypair
          (given_if (has_flag mi.flags musig_nonce_inputs) mi.msg)
          (given_if (has_flag mi.flags musig_nonce_inputs) cache)
          (given_if (has_flag mi.flags musig_nonce_inputs) mi.extra)
      else api.nonce_gen s.seeds.secrand
          (given_if (has_flag mi.flags musig_nonce_inputs) s.seeds.seckey) s.pubkey
          (given_if (has_flag mi.flags musig_nonce_inputs) mi.msg)
          (given_if (has_flag mi.flags musig_nonce_inputs) cache)
          (given_if (has_flag mi.flags musig_nonce_inputs) mi.extra)

  unfoldable pub make_nonces : MusigInput → api.Cache → List (Signer api) → M (Option (List Party))
  make_nonces mi cache [] = pure (some [])
  make_nonces mi cache (s ∷ signers) = do
    n ← lift (gen_nonce mi cache s)
    put_int n.0
    if is_nonzero n.0
        then (do
          ser ← lift (api.pubnonce_serialize n.1.1)
          put ser
          rest ← make_nonces mi cache signers
          pure (add_first (record { signer = s; secnonce = n.1.0; pubnonce = n.1.1 }) rest))
        else pure none

  -- `pubnonce_ptrs`, with the fuzzed nonce in place of the victim's.
  unfoldable pub fuzz_pubnonce : MusigInput → List api.Pubnonce → M (List api.Pubnonce)
  fuzz_pubnonce mi ptrs =
      if has_flag mi.flags musig_fuzz_pubnonce
      then (do
        n ← lift (api.pubnonce_parse mi.pubnonce)
        put_int n.0
        if is_nonzero n.0 then pure (replace ptrs mi.victim n.1) else pure ptrs)
      else pure ptrs

  unfoldable pub fuzz_aggnonce : MusigInput → api.Aggnonce → M api.Aggnonce
  fuzz_aggnonce mi aggnonce =
      if has_flag mi.flags musig_fuzz_aggnonce
      then (do
        n ← lift (api.aggnonce_parse mi.aggnonce)
        put_int n.0
        if is_nonzero n.0 then pure n.1 else pure aggnonce)
      else pure aggnonce

  unfoldable pub sign_all : api.Cache → api.Session → List Party → M (Option (List api.PartialSig))
  sign_all cache session [] = pure (some [])
  sign_all cache session (p ∷ parties) = do
    s ← lift (api.partial_sign p.secnonce p.signer.keypair cache session)
    put_int s.0
    if is_nonzero s.0
        then (do
          ser ← lift (api.partial_sig_serialize s.1.0)
          put ser
          rest ← sign_all cache session parties
          pure (add_first s.1.0 rest))
        else pure none

  -- The lists are equally long.
  unfoldable pub verify_all :
      api.Cache → api.Session → List Party → List api.PartialSig → M (Unit {0})
  verify_all cache session [] psigs = pure tt
  verify_all cache session (p ∷ parties) [] = pure tt
  verify_all cache session (p ∷ parties) (s ∷ psigs) = do
    v ← lift (api.partial_sig_verify s p.pubnonce p.signer.pubkey cache session)
    put_int v
    verify_all cache session parties psigs

  -- `psig_ptrs`, with the fuzzed signature in place of the victim's.
  unfoldable pub fuzz_partial_sig :
      MusigInput
      → api.Cache
      → api.Session
      → List Party
      → List api.PartialSig
      → M (List api.PartialSig)
  fuzz_partial_sig mi cache session parties ptrs =
      if has_flag mi.flags musig_fuzz_partial_sig
      then (do
        s ← lift (api.partial_sig_parse mi.partial_sig)
        put_int s.0
        if is_nonzero s.0
            then (do
              p ← lift (get_elem? parties mi.victim)
              v ← lift (api.partial_sig_verify s.1 p.pubnonce p.signer.pubkey cache session)
              put_int v
              pure (replace ptrs mi.victim s.1))
            else pure ptrs)
      else pure ptrs

  unfoldable pub final_signature :
      List ℕ → api.Pubkey → api.Session → List api.PartialSig → M (Unit {0})
  final_signature msg agg session ptrs = do
    sig64 ← lift (api.partial_sig_agg session ptrs)
    put_int sig64.0
    if is_nonzero sig64.0
        then (do
          put sig64.1
          x ← lift (api.xonly_from_pubkey agg)
          put_int (pos x.0)
          v ← lift (api.schnorrsig_verify sig64.1 msg x.1)
          put_int v)
        else pure tt

  unfoldable pub sign_session :
      MusigInput → api.Pubkey → api.Cache → List Party → api.Session → M (Unit {0})
  sign_session mi agg cache parties session = do
    psigs ← sign_all cache session parties
    unless_ended psigs λ ps. do
      verify_all cache session parties ps
      ptrs ← fuzz_partial_sig mi cache session parties ps
      final_signature mi.msg agg session ptrs

  abbrev pub pubnonces : List Party → List api.Pubnonce
  pubnonces [] = []
  pubnonces (p ∷ parties) = p.pubnonce ∷ pubnonces parties

  unfoldable pub start_session : MusigInput → api.Pubkey → api.Cache → List Party → M (Unit {0})
  start_session mi agg cache parties = do
    ptrs ← fuzz_pubnonce mi (pubnonces parties)
    n ← lift (api.nonce_agg ptrs)
    put_int n.0
    if is_nonzero n.0
        then (do
          aggnonce ← fuzz_aggnonce mi n.1
          ser ← lift (api.aggnonce_serialize aggnonce)
          put ser
          session ← lift (api.nonce_process aggnonce mi.msg cache)
          put_int session.0
          if is_nonzero session.0 then sign_session mi agg cache parties session.1 else pure tt)
        else pure tt

  unfoldable pub tweak_keys : MusigInput → List (Signer api) → api.Pubkey × api.Cache → M (Unit {0})
  tweak_keys mi signers start = do
    ec ←
        (apply_tweak api) (has_flag mi.flags musig_ec_tweak) (has_flag mi.late musig_cancel_ec)
          false mi.tweak0 (api.pubkey_ec_tweak_add (not (has_flag mi.late musig_tweak_no_output)))
          signers start
    unless_ended ec λ key. do
      xonly ←
          (apply_tweak api) (has_flag mi.flags musig_xonly_tweak)
            (has_flag mi.late musig_cancel_xonly) true mi.tweak1
            (api.pubkey_xonly_tweak_add (not (has_flag mi.late musig_tweak_no_output))) signers key
      unless_ended xonly λ tweaked. do
        parties ← make_nonces mi tweaked.1 signers
        unless_ended parties λ ps. start_session mi tweaked.0 tweaked.1 ps

  abbrev pub pubkeys : List (Signer api) → List api.Pubkey
  pubkeys [] = []
  pubkeys (s ∷ signers) = s.pubkey ∷ pubkeys signers

  unfoldable pub aggregate_keys : MusigInput → List (Signer api) → M (Unit {0})
  aggregate_keys mi signers = do
    ptrs ← (sort_pointers api) mi.flags (pubkeys signers)
    a ← lift (api.pubkey_agg ptrs)
    put_int a.0
    if is_nonzero a.0
        then (do
          ser ← lift (api.xonly_serialize a.1.0)
          put ser
          agg ← musig_record_tweaked api a.1.1
          checked ← lift (api.pubkey_agg_check ptrs)
          put_int checked
          tweak_keys mi signers (agg, a.1.1))
        else pure tt

  -- `target_musig` after its declarations.
  unfoldable pub musig_run : M (Unit {0})
  musig_run = do
    mi ← musig_read
    signers ← (create_signers api) mi.seeds
    unless_ended signers λ ss. aggregate_keys mi ss

  -- `target_musig`: the length of the transcript, and what `out` holds.
  unfoldable pub target_musig : List ℕ → ℕ → List ℕ → ℕ → Option (ℕ × List ℕ)
  target_musig input len out size = run_target musig_run input len out size
