-- ===== src/Schnorrsig/Agree.antt =====
-- The Schnorr target as a whole: no abort, a bounded transcript, and builds that agree.
use diffsecp.Prelude.{
  ℕ, ◌%◌, ◌≤◌, ◌≡◌, List, Option, some, none, pos, refl, arith, length, length-replicate, Bool,
  true, false, is_nonzero, has_flag, if◌then◌else◌,
}
use diffsecp.Run.Agree.{
  Agree, Agree-pure, Agree-call, Agree-shared, Agree-step, Agree-if, Agree-bind, Agree-weaken,
}
use diffsecp.Run.Steps.{Does-u8, Does-take, Does-put, Does-put_int}
use diffsecp.Run.Mutate.{Does-mutations}
use diffsecp.Run.Results.{SameBytes, SameOption, Both-Beside}
use diffsecp.Run.Whole.{IsCall, SameTranscript, run_target-Agree}
use diffsecp.Schnorrsig.Api.{SchnorrsigApi}
use diffsecp.Schnorrsig.Contract.{SchnorrsigContract, FailsAlike}
use diffsecp.Schnorrsig.Target.{Parts, schnorrsig_mutate, schnorrsig_aux, schnorrsig_sign}
use diffsecp.Schnorrsig.Machine.{
  Signed, sign_parts, read_signed, check_key, schnorrsig_run, target_schnorrsig,
}
use diffsecp.Schnorrsig.Records.{SameSigner, record_tweak-Agree, record_custom-Agree}
use diffsecp.Schnorrsig.Parts.{
  IsParts, mutate-IsParts, Does-read_parts, IsTweak, spoil-Agree, make_cancel-Agree,
}

module _ (f g : SchnorrsigApi) (c : SchnorrsigContract f g) (u : FailsAlike f g c) where
  record SameSigned (s : Signed f) (s' : Signed g) : Type 0 where
    parts : s.parts ≡ s'.parts
    sized : IsParts s.parts
    signer : SameOption (SameSigner f g c) s.signer s'.signer
    cancel : s.cancel ≡ s'.cancel
    tweak : IsTweak s.cancel

  sign_parts-Agree :
      (mode : ℕ) (msg : List ℕ)
      → length msg ≡ 32
      → Agree 180 SameSigned (sign_parts f mode msg) (sign_parts g mode msg)
  unfolding sign_parts
  sign_parts-Agree mode msg l = Agree-step 0 (Does-take 32) refl λ seckey ls.
      Agree-step 0 (Does-take 32) refl λ aux la. Agree-call (c.keypair_create seckey ls) λ k k' hk.
        rw (← hk.0) (
          Agree-step 4 (Does-put_int k.0) refl λ _ _.
            Agree-if (is_nonzero k.0)
              (λ ok.
                let hk1 = hk.1 ok in
                Agree-call (c.keypair_xonly_pub k.1 k'.1 hk1) λ x x' hx. rw (← hx.0) (
                  Agree-shared (c.xonly_serialize x.1 x'.1 hx.1) λ pk32 lp.
                    Agree-step 4 (Does-put_int (pos x.0)) refl λ _ _.
                      Agree-step 32 (Does-put pk32 32 (omega (arith, lp))) refl λ _ _.
                        Agree-call
                          (Both-Beside (SameBytes 64)
                            (c.sign32 msg k.1 k'.1 _ l
                              (aux_size (has_flag mode schnorrsig_aux) aux la) hk1)
                            (u.sign32 msg k.1 k'.1 _ l
                              (aux_size (has_flag mode schnorrsig_aux) aux la) hk1))
                          λ s s' hs.
                            rw (← hs.0, ← hs.1.0)
                              (Agree-step 4 (Does-put_int s.0) refl λ _ _.
                                Agree-step 64 (Does-put s.1 64 (omega (arith, hs.1.1))) refl λ _ _.
                                  Agree-bind 68
                                    (spoil-Agree f g c u mode s.1 msg pk32 k.1 k'.1 x.0 hs.1.1 hk1)
                                    refl
                                    λ b b' hb. rw (← hb.0) (
                                      Agree-bind 4 (make_cancel-Agree f g c u mode k.1 k'.1 x.0 hk1)
                                        refl
                                        λ d d' hd. rw (← hd.0) (
                                          Agree-pure _ _ (record {
                                            parts = refl;
                                            sized = record { sig64 = hb.1; msg = l; pk32 = lp };
                                            signer = (hk1, hx.1);
                                            cancel = refl;
                                            tweak = hd.1;
                                          }))))))
              (λ _. Agree-pure _ _ (record {
                parts = refl;
                sized = record {
                  sig64 = length-replicate {0} {A = ℕ} 64 0;
                  msg = l;
                  pk32 = length-replicate {0} {A = ℕ} 32 0;
                };
                signer = tt;
                cancel = refl;
                tweak = λ d e. ground (arith, e);
              })))
    where
      aux_size :
          (b : Bool) (aux : List ℕ) → length aux ≡ 32 → IsTweak (if b then some aux else none)
      aux_size true aux la d e = ground (arith, e, la)
      aux_size false aux la d e = ground (arith, e)

  read_signed-Agree :
      (msg : List ℕ) → length msg ≡ 32 → Agree 0 SameSigned (read_signed f msg) (read_signed g msg)
  unfolding read_signed
  read_signed-Agree msg l = Agree-step 0 (Does-read_parts msg l) refl λ p v.
      Agree-pure _ _ (record {
        parts = refl;
        sized = v;
        signer = tt;
        cancel = refl;
        tweak = λ d e. ground (arith, e);
      })

  check_key-Agree :
      (p : Parts) (cancel : Option (List ℕ))
      → IsParts p
      → IsTweak cancel
      → Agree 60 (SameOption c.SameXonly) (check_key f p cancel) (check_key g p cancel)
  unfolding check_key
  check_key-Agree p cancel v lc = Agree-call (c.xonly_parse p.pk32 v.pk32) λ k k' hk. rw (← hk.0) (
      Agree-step 4 (Does-put_int k.0) refl λ _ _.
        Agree-if (is_nonzero k.0)
          (λ ok. Agree-shared (c.verify p.sig64 p.msg k.1 k'.1 v.sig64 (hk.1 ok)) λ w _.
            Agree-step 4 (Does-put_int w) refl λ _ _.
              Agree-bind 52 (record_tweak-Agree f g c k.1 k'.1 cancel (hk.1 ok) lc) refl
                λ _ _ _. Agree-pure _ _ (hk.1 ok))
          (λ _. Agree-pure _ _ tt))

  schnorrsig_run-Agree : Agree 316 (λ _ _. Unit {0}) (schnorrsig_run f) (schnorrsig_run g)
  unfolding schnorrsig_run
  schnorrsig_run-Agree = Agree-step 0 Does-u8 refl λ mode _.
      Agree-step 0 (Does-take 32) refl λ msg l.
        Agree-bind 180
          (Agree-if (has_flag mode schnorrsig_sign) (λ _. sign_parts-Agree mode msg l)
            (λ _. Agree-weaken (omega arith) (read_signed-Agree msg l)))
          refl
          λ s s' e.
            rw (← e.parts, ← e.cancel)
              (Agree-step 0 Does-u8 refl λ nmut _.
                Agree-step 0
                  (Does-mutations IsParts 3 schnorrsig_mutate mutate-IsParts (nmut % 8) s.parts
                    e.sized)
                  refl
                  λ p v. Agree-bind 60 (check_key-Agree p s.cancel v e.tweak) refl λ k k' hk.
                    record_custom-Agree f g c mode p.sig64 k k' s.signer s'.signer v.sig64 hk
                      e.signer)

  pub target_schnorrsig-SameTranscript :
      (input : List ℕ) (len : ℕ) (out out' : List ℕ) (size : ℕ)
      → 316 ≤ size
      → IsCall input len out size
      → IsCall input len out' size
      → SameTranscript 316
          (target_schnorrsig f input len out size)
          (target_schnorrsig g input len out' size)
  unfolding target_schnorrsig
  target_schnorrsig-SameTranscript input len out out' size room call call' =
      run_target-Agree 316 (schnorrsig_run f) (schnorrsig_run g) input len out out' size
        schnorrsig_run-Agree room call call'
