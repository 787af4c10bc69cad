-- ===== src/Musig/Rounds.antt =====
-- The signing round of the MuSig2 target over two builds: partial signatures, and a fuzzed one in place
-- of an honest one.
use diffsecp.Prelude.{
  ℕ, ◌+◌, ◌*◌, ◌<◌, ◌≤◌, pos, List, [], ◌∷◌, ◌≡◌, refl, arith, length, is_nonzero, has_flag,
}
use diffsecp.Run.Agree.{
  Agree, Agree-pure, Agree-call, Agree-shared, Agree-step, Agree-if, Agree-post, Agree-bind_le,
}
use diffsecp.Run.Steps.{Does-put, Does-put_int}
use diffsecp.Run.Results.{Pairwise}
use diffsecp.Musig.Api.{MusigApi}
use diffsecp.Musig.Contract.{MusigContract}
use diffsecp.Musig.Target.{MusigInput}
use diffsecp.Musig.Aggregate.{musig_fuzz_partial_sig}
use diffsecp.Musig.Machine.{
  Party, sign_all, verify_all, fuzz_partial_sig, final_signature, pubnonces,
}
use diffsecp.Musig.Signers.{IsInput, SameMade, add_first-SameMade}
use diffsecp.Musig.Nonces.{replace-Pairwise, get_elem?-both, SameParty}

module _ (f g : MusigApi) (c : MusigContract f g) where
  pub sign_all-Agree :
      (k : f.Cache) (k' : g.Cache) (s : f.Session) (s' : g.Session) (ps : List (Party f))
      (ps' : List (Party g))
      → c.SameCache k k'
      → c.SameSession s s'
      → Pairwise (SameParty f g c) ps ps'
      → Agree
          (length ps * 36)
          (SameMade c.SamePartial (length ps))
          (sign_all f k s ps)
          (sign_all g k' s' ps')
  unfolding sign_all
  sign_all-Agree k k' s s' [] [] hk hs h = Agree-pure _ _ (tt, refl)
  sign_all-Agree k k' s s' [] (p' ∷ ps') hk hs h = absurd h
  sign_all-Agree k k' s s' (p ∷ ps) [] hk hs h = absurd h
  sign_all-Agree k k' s s' (p ∷ ps) (p' ∷ ps') hk hs h =
      Agree-call
        (c.partial_sign p.secnonce p'.secnonce p.signer.keypair p'.signer.keypair p.signer.pubkey
          p'.signer.pubkey k k' s s' h.0.unused h.0.signer.keypair h.0.signer.owns hk hs)
        λ q q' hq. rw (← hq.0) (
          Agree-bind_le 4 {k = 32 + length ps * 36} (omega arith) (Does-put_int q.0) λ _ _ _.
            Agree-if (is_nonzero q.0)
              (λ ok. Agree-shared (c.partial_sig_serialize q.1.0 q'.1.0 (hq.1 ok)) λ b l.
                Agree-bind_le 32 {k = length ps * 36} (omega arith)
                  (Does-put b 32 (omega (arith, l)))
                  λ _ _ _.
                    Agree-bind_le (length ps * 36) {k = 0} (omega arith)
                      (sign_all-Agree k k' s s' ps ps' hk hs h.1)
                      λ r r' hr.
                        Agree-pure _ _
                          (add_first-SameMade c.SamePartial (length ps) _ _ r r' (hq.1 ok) hr))
              (λ _. Agree-pure _ _ tt))

  pub verify_all-Agree :
      (k : f.Cache) (k' : g.Cache) (s : f.Session) (s' : g.Session) (ps : List (Party f))
      (ps' : List (Party g)) (qs : List f.PartialSig) (qs' : List g.PartialSig)
      → c.SameCache k k'
      → c.SameSession s s'
      → Pairwise (SameParty f g c) ps ps'
      → Pairwise c.SamePartial qs qs'
      → Agree
          (length ps * 4)
          (λ _ _. Unit {0})
          (verify_all f k s ps qs)
          (verify_all g k' s' ps' qs')
  unfolding verify_all
  verify_all-Agree k k' s s' [] [] qs qs' hk hs h hq = Agree-pure tt tt tt
  verify_all-Agree k k' s s' [] (p' ∷ ps') qs qs' hk hs h hq = absurd h
  verify_all-Agree k k' s s' (p ∷ ps) [] qs qs' hk hs h hq = absurd h
  verify_all-Agree k k' s s' (p ∷ ps) (p' ∷ ps') [] [] hk hs h hq = Agree-pure tt tt tt
  verify_all-Agree k k' s s' (p ∷ ps) (p' ∷ ps') [] (q' ∷ qs') hk hs h hq = absurd hq
  verify_all-Agree k k' s s' (p ∷ ps) (p' ∷ ps') (q ∷ qs) [] hk hs h hq = absurd hq
  verify_all-Agree k k' s s' (p ∷ ps) (p' ∷ ps') (q ∷ qs) (q' ∷ qs') hk hs h hq =
      Agree-shared
        (c.partial_sig_verify q q' p.pubnonce p'.pubnonce p.signer.pubkey p'.signer.pubkey k k' s s'
          hq.0 h.0.pubnonce h.0.signer.pubkey hk hs)
        λ v _.
          Agree-bind_le 4 {k = length ps * 4} (omega arith) (Does-put_int v)
            λ _ _ _. verify_all-Agree k k' s s' ps ps' qs qs' hk hs h.1 hq.1

  pub fuzz_partial_sig-Agree :
      (mi : MusigInput) (k : f.Cache) (k' : g.Cache) (s : f.Session) (s' : g.Session)
      (ps : List (Party f)) (ps' : List (Party g)) (qs : List f.PartialSig)
      (qs' : List g.PartialSig)
      → IsInput mi
      → mi.victim < length ps
      → c.SameCache k k'
      → c.SameSession s s'
      → Pairwise (SameParty f g c) ps ps'
      → Pairwise c.SamePartial qs qs'
      → Agree 8
          (λ xs ys. Pairwise c.SamePartial xs ys × (length xs ≡ length qs))
          (fuzz_partial_sig f mi k s ps qs)
          (fuzz_partial_sig g mi k' s' ps' qs')
  unfolding fuzz_partial_sig
  fuzz_partial_sig-Agree mi k k' s s' ps ps' qs qs' v l hk hs h hq =
      Agree-if (has_flag mi.flags musig_fuzz_partial_sig)
        (λ _. Agree-call (c.partial_sig_parse mi.partial_sig v.partial_sig) λ r r' hr. rw (← hr.0) (
          Agree-step 4 (Does-put_int r.0) refl λ _ _.
            Agree-if (is_nonzero r.0)
              (λ ok. Agree-call (get_elem?-both (SameParty f g c) ps ps' mi.victim l h) λ p p' hp.
                Agree-shared
                  (c.partial_sig_verify r.1 r'.1 p.pubnonce p'.pubnonce p.signer.pubkey
                    p'.signer.pubkey k k' s s' (hr.1 ok) hp.pubnonce hp.signer.pubkey hk hs)
                  λ w _. Agree-step 4 (Does-put_int w) refl λ _ _.
                    Agree-pure _ _
                      (replace-Pairwise c.SamePartial qs qs' mi.victim r.1 r'.1 (hr.1 ok) hq))
              (λ _. Agree-pure _ _ (hq, refl))))
        (λ _. Agree-pure _ _ (hq, refl))

  pub final_signature-Agree :
      (msg : List ℕ) (a : f.Pubkey) (a' : g.Pubkey) (s : f.Session) (s' : g.Session)
      (qs : List f.PartialSig) (qs' : List g.PartialSig)
      → 1 ≤ length qs
      → c.SamePubkey a a'
      → c.SameSession s s'
      → Pairwise c.SamePartial qs qs'
      → Agree 76 (λ _ _. Unit {0}) (final_signature f msg a s qs) (final_signature g msg a' s' qs')
  unfolding final_signature
  final_signature-Agree msg a a' s s' qs qs' l ha hs hq =
      Agree-call (c.partial_sig_agg s s' qs qs' l hs hq) λ r r' hr. rw (← hr.0) (
        Agree-step 4 (Does-put_int r.0) refl λ _ _.
          Agree-if (is_nonzero r.0)
            (λ ok. rw (← (hr.1 ok).0) (
              Agree-step 64 (Does-put r.1 64 (omega (arith, (hr.1 ok).1))) refl λ _ _.
                Agree-call (c.xonly_from_pubkey a a' ha) λ x x' hx. rw (← hx.0) (
                  Agree-step 4 (Does-put_int (pos x.0)) refl λ _ _.
                    Agree-shared (c.schnorrsig_verify r.1 msg x.1 x'.1 (hr.1 ok).1 hx.1)
                      λ v _. Agree-post (Does-put_int v) (λ _ _ _. tt))))
            (λ _. Agree-pure tt tt tt))

  pub pubnonces-Pairwise :
      (ps : List (Party f)) (ps' : List (Party g))
      → Pairwise (SameParty f g c) ps ps'
      → Pairwise c.SamePubnonce (pubnonces f ps) (pubnonces g ps')
        × (length (pubnonces f ps) ≡ length ps)
  pubnonces-Pairwise [] [] h = (tt, refl)
  pubnonces-Pairwise [] (p' ∷ ps') h = absurd h
  pubnonces-Pairwise (p ∷ ps) [] h = absurd h
  pubnonces-Pairwise (p ∷ ps) (p' ∷ ps') h =
      let rest = pubnonces-Pairwise ps ps' h.1 in ((h.0.pubnonce, rest.0), omega (arith, rest.1))
