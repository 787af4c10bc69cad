-- ===== src/Ellswift/Agree.antt =====
-- The ElligatorSwift target: no abort, a bounded transcript, and builds that agree.
use diffsecp.Prelude.{
  ℕ, ◌≤◌, ◌≡◌, List, Option, refl, arith, length, Bool, true, false, is_nonzero, has_flag,
}
use diffsecp.Run.Agree.{Agree, Agree-pure, Agree-call, Agree-step, Agree-if, Agree-post, Agree-bind}
use diffsecp.Run.Steps.{Does-u8, Does-take, Does-put, Does-put_int}
use diffsecp.Run.Results.{SameBytes}
use diffsecp.Run.Whole.{IsCall, SameTranscript, run_target-Agree}
use diffsecp.Ellswift.Api.{EllswiftApi, HashFunction}
use diffsecp.Ellswift.Contract.{EllswiftContract, SameHash}
use diffsecp.Ellswift.Target.{
  ellswift_fuzz_peer, ellswift_encode, ellswift_prefix, ellswift_raw, ellswift_inverse,
  ellswift_aux0, ellswift_aux1, ellswift_own_encoding, encode_again, derive, hash_function,
  ellswift_run, target_ellswift,
}
use diffsecp.Ellswift.Cases.{
  IsSeed, given_if-IsSeed, Does-read_party, raw_x-Agree, inv-Agree, record_pubkey-Agree,
}

module _ (f g : EllswiftApi) (c : EllswiftContract f g) where
  own_encoding-Agree :
      (seckey fallback : List ℕ) (aux : Option (List ℕ))
      → length seckey ≡ 32
      → length fallback ≡ 64
      → IsSeed aux
      → Agree 68
          (SameBytes 64)
          (ellswift_own_encoding f seckey aux fallback)
          (ellswift_own_encoding g seckey aux fallback)
  unfolding ellswift_own_encoding
  own_encoding-Agree seckey fallback aux lk lf la =
      Agree-call (c.ellswift_create seckey aux lk la) λ s s' hs. rw (← hs.0) (
        Agree-step 4 (Does-put_int s.0) refl λ _ _.
          Agree-if (is_nonzero s.0)
            (λ ok. rw (← (hs.1 ok).0) (
              Agree-step 64 (Does-put s.1 64 (omega (arith, (hs.1 ok).1))) refl
                λ _ _. Agree-pure _ _ (refl, (hs.1 ok).1)))
            (λ _. Agree-pure _ _ (refl, lf)))

  encode_again-Agree :
      (k : f.Pubkey) (k' : g.Pubkey) (rnd : List ℕ)
      → c.SamePubkey k k'
      → length rnd ≡ 32
      → Agree 105 (λ _ _. Unit {0}) (encode_again f k rnd) (encode_again g k' rnd)
  unfolding encode_again
  encode_again-Agree k k' rnd h l = Agree-call (c.ellswift_encode k k' rnd h l) λ s s' hs.
      rw (← hs.0, ← hs.1.0)
        (Agree-step 4 (Does-put_int s.0) refl λ _ _.
          Agree-step 64 (Does-put s.1 64 (omega (arith, hs.1.1))) refl λ _ _.
            Agree-call (c.ellswift_decode s.1 hs.1.1) λ d d' hd.
              rw (← hd.0) (
                Agree-step 4 (Does-put_int d.0) refl
                  λ _ _. record_pubkey-Agree f g c d.1 d'.1 hd.1))

  derive-Agree :
      (a b seckey prefix : List ℕ) (party : ℕ) (h h' : HashFunction)
      → length a ≡ 64
      → length b ≡ 64
      → length seckey ≡ 32
      → party ≤ 1
      → SameHash prefix h h'
      → Agree 36
          (λ _ _. Unit {0})
          (derive f a b seckey party h prefix)
          (derive g a b seckey party h' prefix)
  unfolding derive
  derive-Agree a b seckey prefix party h h' la lb lk le same =
      Agree-call (c.ellswift_xdh a b seckey party h h' prefix la lb lk le same) λ s s' hs.
        rw (← hs.0) (
          Agree-step 4 (Does-put_int s.0) refl λ _ _.
            Agree-if (is_nonzero s.0)
              (λ ok.
                rw (← (hs.1 ok).0)
                  (Agree-post (Does-put s.1 32 (omega (arith, (hs.1 ok).1))) (λ _ _ _. tt)))
              (λ _. Agree-pure tt tt tt))

  hash_function-SameHash :
      (prefix : List ℕ) (b : Bool)
      → length prefix ≡ 64
      → SameHash prefix (hash_function f b) (hash_function g b)
  hash_function-SameHash prefix true l = c.xdh_hash_function_prefix prefix l
  hash_function-SameHash prefix false l = c.xdh_hash_function_bip324 prefix

  ellswift_run-Agree : Agree 462 (λ _ _. Unit {0}) (ellswift_run f) (ellswift_run g)
  unfolding ellswift_run
  ellswift_run-Agree = Agree-step 0 Does-u8 refl λ flags _.
      Agree-step 0 (Does-take 64) refl λ ell le. Agree-step 0 (Does-take 32) refl λ rnd lr.
        Agree-step 0 Does-read_party refl λ p0 l0. Agree-step 0 Does-read_party refl λ p1 l1.
          Agree-step 0 (Does-take 64) refl λ prefix lp. Agree-step 0 Does-u8 refl λ inv_mode _.
            Agree-step 0 (Does-take 32) refl λ inv_u lu.
              let same = hash_function-SameHash prefix (has_flag flags ellswift_prefix) lp in
              Agree-call (c.ellswift_decode ell le) λ k k' hk. rw (← hk.0) (
                Agree-step 4 (Does-put_int k.0) refl λ _ _.
                  Agree-bind 33 (record_pubkey-Agree f g c k.1 k'.1 hk.1) refl λ _ _ _.
                    Agree-bind 40
                      (Agree-if (has_flag flags ellswift_inverse)
                        (λ _. inv-Agree f g c inv_mode inv_u k.1 k'.1 lu hk.1)
                        (λ _. Agree-pure tt tt tt))
                      refl
                      λ _ _ _.
                        Agree-bind 105
                          (Agree-if (has_flag flags ellswift_encode)
                            (λ _. encode_again-Agree k.1 k'.1 rnd hk.1 lr)
                            (λ _. Agree-pure tt tt tt))
                          refl
                          λ _ _ _.
                            Agree-bind 68
                              (own_encoding-Agree p0.0 ell _ l0.0 le
                                (given_if-IsSeed (has_flag flags ellswift_aux0) p0.1 l0.1))
                              refl
                              λ a a' ha. rw (← ha.0) (
                                Agree-bind 68
                                  (Agree-if (has_flag flags ellswift_fuzz_peer)
                                    (λ _. Agree-pure {n = 68} {Q = SameBytes 64} ell ell (refl, le))
                                    (λ _.
                                      own_encoding-Agree p1.0 ell _ l1.0 le
                                        (given_if-IsSeed (has_flag flags ellswift_aux1) p1.1 l1.1)))
                                  refl
                                  λ b b' hb. rw (← hb.0) (
                                    Agree-bind 36
                                      (derive-Agree a b p0.0 prefix 0 _ _ ha.1 hb.1 l0.0
                                        (omega arith) same)
                                      refl
                                      λ _ _ _.
                                        Agree-bind 36
                                          (derive-Agree a b p1.0 prefix 1 _ _ ha.1 hb.1 l1.0
                                            (omega arith) same)
                                          refl
                                          λ _ _ _.
                                            Agree-if (has_flag flags ellswift_raw)
                                              (λ _.
                                                (raw_x-Agree f g c) a b p0.0 prefix _ _ ha.1 hb.1
                                                  l0.0 same)
                                              (λ _. Agree-pure tt tt tt))))

  -- For two builds of libsecp that do the same on every valid call, on every input and with buffers
  -- of at least 462 bytes, whatever these hold: `target_ellswift` returns over both builds, so that
  -- no call is an illegal one (field elements stay within their magnitudes, and the inverse map is
  -- only asked for an x on the curve and a u other than 0) and the transcript does not overflow; and
  -- both transcripts have the same length, at most 462, and the same bytes.
  pub target_ellswift-SameTranscript :
      (input : List ℕ) (len : ℕ) (out out' : List ℕ) (size : ℕ)
      → 462 ≤ size
      → IsCall input len out size
      → IsCall input len out' size
      → SameTranscript 462
          (target_ellswift f input len out size)
          (target_ellswift g input len out' size)
  unfolding target_ellswift
  target_ellswift-SameTranscript input len out out' size room call call' =
      run_target-Agree 462 (ellswift_run f) (ellswift_run g) input len out out' size
        ellswift_run-Agree room call call'
