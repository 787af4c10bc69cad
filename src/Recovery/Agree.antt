-- ===== src/Recovery/Agree.antt =====
-- The recovery target as a whole: no abort, a bounded transcript, and builds that agree.
use diffsecp.Prelude.{
  ℕ, ◌%◌, ◌≤◌, ◌≡◌, List, Option, some, none, pos, refl, arith, length, length-replicate, true,
  false, is_nonzero, bit_and, bit_xor, bit_and_three, bit_xor-lt, ◌==◌, Bool-cases, inl, inr,
}
use diffsecp.Run.Agree.{
  Agree, Does, Agree-pure, Agree-call, Agree-shared, Agree-step, Agree-if, Agree-post, Agree-bind,
  Agree-weaken,
}
use diffsecp.Run.Steps.{Does-u8, Does-take, Does-put, Does-put_int}
use diffsecp.Run.Mutate.{length-xor_at, Does-mutations}
use diffsecp.Run.Whole.{IsCall, SameTranscript, run_target-Agree}
use diffsecp.Recovery.Api.{RecoveryApi, RecoveryContract}
use diffsecp.Recovery.Target.{
  Compact, mutate, read_ndata, read_compact, recovery_record_pubkey, recovery_record_checks,
  sign_compact, recovery_run, target_recovery,
}

-- The arrays have their sizes, and the id is one that libsecp accepts.
record IsCompact (c : Compact) : Type 0 where
  sig64 : length c.sig64 ≡ 64
  msg : length c.msg ≡ 32
  recid : c.recid ≤ 3

-- Two bits of an id stay two bits.
recid_bound : (id mask : ℕ) → id ≤ 3 → bit_xor id (bit_and mask 3) ≤ 3
recid_bound id mask h =
    omega
      (arith, bit_xor-lt 2 id (bit_and mask 3) (omega arith) (omega (arith, bit_and_three mask)))

mutate-IsCompact :
    (c : Compact) (which place mask : ℕ) → IsCompact c → IsCompact (mutate c which place mask)
unfolding mutate
mutate-IsCompact c which place mask v = elim (Bool-cases (which == 0)) [
  | inl e ↦ rw e (record {
    sig64 = omega (arith, v.sig64, length-xor_at c.sig64 (place % 64) mask);
    msg = v.msg;
    recid = v.recid;
  })
  | inr ne ↦ rw ne (elim (Bool-cases (which == 1)) [
    | inl e ↦ rw e (record {
      sig64 = v.sig64;
      msg = omega (arith, v.msg, length-xor_at c.msg (place % 32) mask);
      recid = v.recid;
    })
    | inr ne' ↦
        rw ne' (record { sig64 = v.sig64; msg = v.msg; recid = recid_bound c.recid mask v.recid })
  ])
]

abbrev IsNdata : Option (List ℕ) → Type 0
IsNdata o = (d : List ℕ) → o ≡ some d → length d ≡ 32

Does-read_ndata : (mode : ℕ) → Does 0 IsNdata (read_ndata mode)
unfolding read_ndata
Does-read_ndata mode =
    Agree-if (bit_and mode 2 == 0) (λ _. Agree-pure none none (refl, λ d e. ground (arith, e)))
      (λ _.
        Agree-step 0 (Does-take 32) refl
          λ b len. Agree-pure (some b) (some b) (refl, λ d e. ground (arith, e, len)))

Does-read_compact : (msg : List ℕ) → length msg ≡ 32 → Does 0 IsCompact (read_compact msg)
unfolding read_compact
Does-read_compact msg l = Agree-step 0 (Does-take 64) refl λ sig64 len.
    Agree-step 0 Does-u8 refl λ id _.
      Agree-pure _ _
        (refl, record { sig64 = len; msg = l; recid = omega (arith, bit_and_three id) })

module _ (f g : RecoveryApi) (c : RecoveryContract f g) where
  recovery_record_pubkey-Agree :
      (k : f.Pubkey) (k' : g.Pubkey)
      → c.SamePubkey k k'
      → Agree 98 (λ _ _. Unit {0}) (recovery_record_pubkey f k) (recovery_record_pubkey g k')
  unfolding recovery_record_pubkey
  recovery_record_pubkey-Agree k k' h =
      Agree-shared (c.pubkey_serialize k k' 33 true (omega arith) h) λ short l.
        Agree-step 33 (Does-put short 33 (omega (arith, l))) refl λ _ _.
          Agree-shared (c.pubkey_serialize k k' 65 false (omega arith) h)
            λ long l'. Agree-post (Does-put long 65 (omega (arith, l'))) (λ _ _ _. tt)

  recovery_record_checks-Agree :
      (s : f.RecoverableSignature) (s' : g.RecoverableSignature) (msg : List ℕ)
      → length msg ≡ 32
      → c.SameRecoverable s s'
      → Agree 246
          (λ _ _. Unit {0})
          (recovery_record_checks f s msg)
          (recovery_record_checks g s' msg)
  unfolding recovery_record_checks
  recovery_record_checks-Agree s s' msg l h =
      Agree-shared (c.recoverable_serialize_compact s s' h) λ p q.
        Agree-step 64 (Does-put p.0 64 (omega (arith, q.0))) refl λ _ _.
          Agree-step 4 (Does-put_int (pos p.1)) refl λ _ _.
            Agree-call (c.convert s s' h) λ sig sig' hs.
              Agree-shared (c.serialize_compact sig sig' hs) λ b lb.
                Agree-step 64 (Does-put b 64 (omega (arith, lb))) refl λ _ _.
                  Agree-call (c.recover s s' msg l h) λ k k' e. rw (← e.0) (
                    Agree-step 4 (Does-put_int k.0) refl λ _ _.
                      Agree-if (is_nonzero k.0)
                        (λ ok.
                          Agree-bind 98 (recovery_record_pubkey-Agree k.1 k'.1 (e.1 ok)) refl
                            λ _ _ _.
                              Agree-shared (c.verify sig sig' msg k.1 k'.1 l hs (e.1 ok)) λ v _.
                                Agree-step 4 (Does-put_int v) refl λ _ _.
                                  Agree-call (c.normalize sig sig' hs) λ low low' el. rw (← el.0) (
                                    Agree-step 4 (Does-put_int low.0) refl λ _ _.
                                      Agree-shared
                                        (c.verify low.1 low'.1 msg k.1 k'.1 l el.1 (e.1 ok))
                                        λ w _.
                                          Agree-post (Agree-weaken (omega arith) (Does-put_int w))
                                            (λ _ _ _. tt)))
                        (λ _. Agree-pure tt tt tt))

  sign_compact-Agree :
      (mode : ℕ) (msg : List ℕ)
      → length msg ≡ 32
      → Agree 72 (λ a b. (a ≡ b) × IsCompact a) (sign_compact f mode msg) (sign_compact g mode msg)
  unfolding sign_compact
  sign_compact-Agree mode msg l = Agree-step 0 (Does-take 32) refl λ seckey lk.
      Agree-step 0 (Does-read_ndata mode) refl λ ndata ln.
        Agree-call (c.sign_recoverable msg seckey ndata l lk ln) λ s s' e. rw (← e.0) (
          Agree-step 4 (Does-put_int s.0) refl λ _ _.
            Agree-if (is_nonzero s.0)
              (λ ok. Agree-shared (c.recoverable_serialize_compact s.1 s'.1 (e.1 ok)) λ p q.
                Agree-step 64 (Does-put p.0 64 (omega (arith, q.0))) refl λ _ _.
                  Agree-step 4 (Does-put_int (pos p.1)) refl
                    λ _ _. Agree-pure _ _ (refl, record { sig64 = q.0; msg = l; recid = q.1 }))
              (λ _. Agree-pure _ _ (
                refl,
                record { sig64 = length-replicate {0} {A = ℕ} 64 0; msg = l; recid = omega arith },
              )))

  recovery_run-Agree : Agree 322 (λ _ _. Unit {0}) (recovery_run f) (recovery_run g)
  unfolding recovery_run
  recovery_run-Agree = Agree-step 0 Does-u8 refl λ mode _. Agree-step 0 (Does-take 32) refl λ msg l.
      Agree-bind 72
        (Agree-if (bit_and mode 1 == 0) (λ _. Agree-weaken (omega arith) (Does-read_compact msg l))
          (λ _. sign_compact-Agree mode msg l))
        refl
        λ made made' e. rw (← e.0) (
          Agree-step 0 Does-u8 refl λ nmut _.
            Agree-step 0 (Does-mutations IsCompact 3 mutate mutate-IsCompact (nmut % 8) made e.1)
              refl
              λ m v.
                Agree-call (c.recoverable_parse_compact m.sig64 m.recid v.sig64 v.recid) λ s s' p.
                  rw (← p.0) (
                    Agree-step 4 (Does-put_int s.0) refl λ _ _.
                      Agree-if (is_nonzero s.0)
                        (λ ok. recovery_record_checks-Agree s.1 s'.1 m.msg v.msg (p.1 ok))
                        (λ _. Agree-pure tt tt tt)))

  -- For two builds of libsecp that keep to the documented contract of the functions for recoverable
  -- signatures, on every input and with buffers of at least 322 bytes, whatever these hold:
  -- `target_recovery` returns over both builds, so that no call is an illegal one, the mutations
  -- keep the recovery id within 0 to 3, and the transcript does not overflow; and both transcripts
  -- have the same length, at most 322, and the same bytes.
  pub target_recovery-SameTranscript :
      (input : List ℕ) (len : ℕ) (out out' : List ℕ) (size : ℕ)
      → 322 ≤ size
      → IsCall input len out size
      → IsCall input len out' size
      → SameTranscript 322
          (target_recovery f input len out size)
          (target_recovery g input len out' size)
  unfolding target_recovery
  target_recovery-SameTranscript input len out out' size room call call' =
      run_target-Agree 322 (recovery_run f) (recovery_run g) input len out out' size
        recovery_run-Agree room call call'
