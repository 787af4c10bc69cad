-- ===== src/Musig/Agree.antt =====
-- The MuSig2 target as a whole: no abort, a bounded transcript, and builds that agree.
use diffsecp.Prelude.{
  ℕ, ◌<◌, ◌≤◌, List, [], ◌∷◌, Option, none, some, ◌≡◌, refl, arith, length, not, is_nonzero,
  has_flag, false, true,
}
use diffsecp.Run.{M}
use diffsecp.Run.Agree.{
  Agree, Agree-pure, Agree-call, Agree-shared, Agree-step, Agree-if, Agree-bind, Agree-weaken,
}
use diffsecp.Run.Steps.{Does-put, Does-put_int}
use diffsecp.Run.Results.{SameOption, Pairwise}
use diffsecp.Run.Whole.{IsCall, SameTranscript, run_target-Agree}
use diffsecp.Musig.Api.{MusigApi}
use diffsecp.Musig.Contract.{MusigContract}
use diffsecp.Musig.Target.{MusigInput, Signer}
use diffsecp.Musig.Aggregate.{
  unless_ended, musig_ec_tweak, musig_xonly_tweak, musig_cancel_ec, musig_cancel_xonly,
  musig_tweak_no_output,
}
use diffsecp.Musig.Machine.{
  Party, sign_session, start_session, tweak_keys, aggregate_keys, pubkeys, musig_run, target_musig,
}
use diffsecp.Musig.Signers.{
  IsInput, Does-musig_read, SameSigner, create_signers-Agree, sort_pointers-Agree,
}
use diffsecp.Musig.Tweaks.{SameKey, record_tweaked-Agree, apply_tweak-Agree}
use diffsecp.Musig.Nonces.{SameParty, make_nonces-Agree, fuzz_pubnonce-Agree, fuzz_aggnonce-Agree}
use diffsecp.Musig.Rounds.{
  sign_all-Agree, verify_all-Agree, fuzz_partial_sig-Agree, final_signature-Agree,
  pubnonces-Pairwise,
}

-- Both runs ended, or both go on.
unless_ended-Agree :
    {A B : Type 0} {n : ℕ} {R : A → B → Type 0} {f : A → M (Unit {0})} {g : B → M (Unit {0})}
    (o : Option A) (o' : Option B)
    → SameOption R o o'
    → ((a : A) (b : B) → R a b → Agree n (λ _ _. Unit {0}) (f a) (g b))
    → Agree n (λ _ _. Unit {0}) (unless_ended o f) (unless_ended o' g)
unless_ended-Agree none none h rest = Agree-pure tt tt tt
unless_ended-Agree none (some b) h rest = absurd h
unless_ended-Agree (some a) none h rest = absurd h
unless_ended-Agree (some a) (some b) h rest = rest a b h

module _ (f g : MusigApi) (c : MusigContract f g) where
  pubkeys-Pairwise :
      (ss : List (Signer f)) (ss' : List (Signer g))
      → Pairwise (SameSigner f g c) ss ss'
      → Pairwise c.SamePubkey (pubkeys f ss) (pubkeys g ss') × (length (pubkeys f ss) ≡ length ss)
  pubkeys-Pairwise [] [] h = (tt, refl)
  pubkeys-Pairwise [] (s' ∷ ss') h = absurd h
  pubkeys-Pairwise (s ∷ ss) [] h = absurd h
  pubkeys-Pairwise (s ∷ ss) (s' ∷ ss') h =
      let rest = pubkeys-Pairwise ss ss' h.1 in ((h.0.pubkey, rest.0), omega (arith, rest.1))

  sign_session-Agree :
      (mi : MusigInput) (a : f.Pubkey) (a' : g.Pubkey) (k : f.Cache) (k' : g.Cache)
      (ps : List (Party f)) (ps' : List (Party g)) (s : f.Session) (s' : g.Session)
      → IsInput mi
      → mi.victim < length ps
      → length ps ≤ 3
      → c.SamePubkey a a'
      → c.SameCache k k'
      → Pairwise (SameParty f g c) ps ps'
      → c.SameSession s s'
      → Agree 204 (λ _ _. Unit {0}) (sign_session f mi a k ps s) (sign_session g mi a' k' ps' s')
  unfolding sign_session
  sign_session-Agree mi a a' k k' ps ps' s s' v l few ha hk hp hs =
      Agree-bind 108 (Agree-weaken (omega arith) (sign_all-Agree f g c k k' s s' ps ps' hk hs hp))
        refl
        λ o o' ho. unless_ended-Agree o o' ho λ qs qs' hq.
          Agree-bind 12
            (Agree-weaken (omega arith)
              (verify_all-Agree f g c k k' s s' ps ps' qs qs' hk hs hp hq.0))
            refl
            λ _ _ _.
              Agree-bind 8
                (fuzz_partial_sig-Agree f g c mi k k' s s' ps ps' qs qs' v l hk hs hp hq.0) refl
                λ xs xs' hx.
                  final_signature-Agree f g c mi.msg a a' s s' xs xs' (omega (arith, hx.1, hq.1)) ha
                    hs hx.0

  start_session-Agree :
      (mi : MusigInput) (a : f.Pubkey) (a' : g.Pubkey) (k : f.Cache) (k' : g.Cache)
      (ps : List (Party f)) (ps' : List (Party g))
      → IsInput mi
      → mi.victim < length ps
      → length ps ≤ 3
      → c.SamePubkey a a'
      → c.SameCache k k'
      → Pairwise (SameParty f g c) ps ps'
      → Agree 286 (λ _ _. Unit {0}) (start_session f mi a k ps) (start_session g mi a' k' ps')
  unfolding start_session
  start_session-Agree mi a a' k k' ps ps' v l few ha hk hp =
      let nonces = pubnonces-Pairwise f g c ps ps' hp in
      Agree-bind 4 (fuzz_pubnonce-Agree f g c mi _ _ v nonces.0) refl λ ns ns' hn.
        Agree-call (c.nonce_agg ns ns' (omega (arith, hn.1, nonces.1)) hn.0) λ r r' hr.
          rw (← hr.0) (
            Agree-step 4 (Does-put_int r.0) refl λ _ _.
              Agree-if (is_nonzero r.0)
                (λ ok.
                  Agree-bind 4 (fuzz_aggnonce-Agree f g c mi r.1 r'.1 v (hr.1 ok)) refl λ n n' hm.
                    Agree-shared (c.aggnonce_serialize n n' hm) λ b lb.
                      Agree-step 66 (Does-put b 66 (omega (arith, lb))) refl λ _ _.
                        Agree-call (c.nonce_process n n' mi.msg k k' v.msg hm hk) λ s s' hs.
                          rw (← hs.0) (
                            Agree-step 4 (Does-put_int s.0) refl λ _ _.
                              Agree-if (is_nonzero s.0)
                                (λ go.
                                  sign_session-Agree mi a a' k k' ps ps' s.1 s'.1 v l few ha hk hp
                                    (hs.1 go))
                                (λ _. Agree-pure tt tt tt)))
                (λ _. Agree-pure tt tt tt))

  tweak_keys-Agree :
      (mi : MusigInput) (ss : List (Signer f)) (ss' : List (Signer g)) (p : f.Pubkey × f.Cache)
      (q : g.Pubkey × g.Cache)
      → IsInput mi
      → length ss ≡ length mi.seeds
      → Pairwise (SameSigner f g c) ss ss'
      → SameKey f g c p q
      → Agree 578 (λ _ _. Unit {0}) (tweak_keys f mi ss p) (tweak_keys g mi ss' q)
  unfolding tweak_keys
  tweak_keys-Agree mi ss ss' p q v l hs h =
      Agree-bind 41
        (apply_tweak-Agree f g c (has_flag mi.flags musig_ec_tweak)
          (has_flag mi.late musig_cancel_ec) false mi.tweak0 _ _ ss ss' p q v.tweak0
          (c.pubkey_ec_tweak_add (not (has_flag mi.late musig_tweak_no_output))) hs h)
        refl
        λ o o' ho. unless_ended-Agree o o' ho λ key key' hkey.
          Agree-bind 41
            (apply_tweak-Agree f g c (has_flag mi.flags musig_xonly_tweak)
              (has_flag mi.late musig_cancel_xonly) true mi.tweak1 _ _ ss ss' key key' v.tweak1
              (c.pubkey_xonly_tweak_add (not (has_flag mi.late musig_tweak_no_output))) hs hkey)
            refl
            λ x x' hx. unless_ended-Agree x x' hx λ t t' ht.
              Agree-bind 210
                (Agree-weaken (omega (arith, v.few_seeds))
                  (make_nonces-Agree f g c mi t.1 t'.1 ss ss' v ht.1 hs))
                refl
                λ m m' hm. unless_ended-Agree m m' hm λ ps ps' hp.
                  start_session-Agree mi t.0 t'.0 t.1 t'.1 ps ps' v (omega (arith, v.victim, hp.1))
                    (omega (arith, v.few_seeds, hp.1)) ht.0 ht.1 hp.0

  aggregate_keys-Agree :
      (mi : MusigInput) (ss : List (Signer f)) (ss' : List (Signer g))
      → IsInput mi
      → length ss ≡ length mi.seeds
      → Pairwise (SameSigner f g c) ss ss'
      → Agree 659 (λ _ _. Unit {0}) (aggregate_keys f mi ss) (aggregate_keys g mi ss')
  unfolding aggregate_keys
  aggregate_keys-Agree mi ss ss' v l hs =
      let keys = pubkeys-Pairwise ss ss' hs in
      Agree-bind 4 (sort_pointers-Agree f g c mi.flags _ _ keys.0) refl λ ps ps' hp.
        let some_keys : 1 ≤ length ps = omega (arith, hp.1, keys.1, l, v.some_seeds) in
        Agree-call (c.pubkey_agg ps ps' some_keys hp.0) λ a a' ha. rw (← ha.0) (
          Agree-step 4 (Does-put_int a.0) refl λ _ _.
            Agree-if (is_nonzero a.0)
              (λ ok. Agree-shared (c.xonly_serialize a.1.0 a'.1.0 (ha.1 ok).0) λ b lb.
                Agree-step 32 (Does-put b 32 (omega (arith, lb))) refl λ _ _.
                  Agree-bind 37 (record_tweaked-Agree f g c a.1.1 a'.1.1 (ha.1 ok).1) refl
                    λ k k' hk. Agree-shared (c.pubkey_agg_check ps ps' some_keys hp.0) λ n _.
                      Agree-step 4 (Does-put_int n) refl λ _ _.
                        tweak_keys-Agree mi ss ss' (k, a.1.1) (k', a'.1.1) v l hs (hk, (ha.1 ok).1))
              (λ _. Agree-pure tt tt tt))

  musig_run-Agree : Agree 671 (λ _ _. Unit {0}) (musig_run f) (musig_run g)
  unfolding musig_run
  musig_run-Agree = Agree-step 0 Does-musig_read refl λ mi v.
      Agree-bind 12
        (Agree-weaken (omega (arith, v.few_seeds)) (create_signers-Agree f g c mi.seeds v.seeds))
        refl
        λ o o' ho.
          unless_ended-Agree o o' ho λ ss ss' hs. aggregate_keys-Agree mi ss ss' v hs.1 hs.0

  -- For two builds of libsecp whose MuSig2 functions agree, on every input and with buffers of at
  -- least 671 bytes, whatever these hold: `target_musig` returns over both builds, so that no call is
  -- an illegal one (every call is on objects of successful calls, at least one key, nonce and
  -- signature goes to an aggregation, and a secret nonce signs with the key pair it was made for), and the transcript does not overflow; and both transcripts have the same length, at most
  -- 671, and the same bytes.
  pub target_musig-SameTranscript :
      (input : List ℕ) (len : ℕ) (out out' : List ℕ) (size : ℕ)
      → 671 ≤ size
      → IsCall input len out size
      → IsCall input len out' size
      → SameTranscript 671 (target_musig f input len out size) (target_musig g input len out' size)
  unfolding target_musig
  target_musig-SameTranscript input len out out' size room call call' =
      run_target-Agree 671 (musig_run f) (musig_run g) input len out out' size musig_run-Agree room
        call call'
