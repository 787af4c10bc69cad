-- ===== src/Ecdsa/Agree.antt =====
-- The ECDSA target as a whole: no abort, a bounded transcript, and builds that agree.
use diffsecp.Prelude.{
  ℕ, ◌%◌, ◌≤◌, ◌≡◌, ℤ, List, Option, refl, arith, length, is_nonzero, has_flag, if◌then◌else◌,
}
use diffsecp.Limits.{diffsecp_input_max}
use diffsecp.Run.Agree.{
  Agree, Both, Agree-pure, Agree-call, Agree-step, Agree-if, Agree-bind, Agree-weaken,
}
use diffsecp.Run.Steps.{Does-u8, Does-take, Does-put_int}
use diffsecp.Run.Short.{
  AgreeShort, Agree-AgreeShort, AgreeShort-bind, AgreeShort-step, run_target-AgreeShort,
}
use diffsecp.Run.Results.{Succeeds, SameOption}
use diffsecp.Run.Whole.{IsCall, SameTranscript}
use diffsecp.Ecdsa.Api.{EcdsaApi}
use diffsecp.Ecdsa.Contract.{EcdsaContract}
use diffsecp.Ecdsa.Machine.{
  Arrays, ecdsa_sign, ecdsa_compressed, ecdsa_from_r, sign_arrays, construct_arrays,
  check_signature, check_pubkey, check_arrays, read_arrays, ecdsa_run, target_ecdsa,
}
use diffsecp.Ecdsa.Records.{record_pubkey-Agree, record_checks-Agree}
use diffsecp.Ecdsa.Arrays.{IsArrays, Does-ecdsa_mutations, Does-read_arrays, Short-read_tail}
use diffsecp.Ecdsa.Sources.{key_length, sign_arrays-Agree, construct_arrays-Agree, first_der-Agree}

module _ (f g : EcdsaApi) (c : EcdsaContract f g) where
  check_signature-Agree :
      (o : Option (ℤ × f.Signature)) (o' : Option (ℤ × g.Signature)) (msg : List ℕ)
      (k : Option f.Pubkey) (k' : Option g.Pubkey)
      → Both (Succeeds c.SameSignature) o o'
      → length msg ≡ 32
      → SameOption c.SamePubkey k k'
      → Agree 316 (λ _ _. Unit {0}) (check_signature f o msg k) (check_signature g o' msg k')
  unfolding check_signature
  check_signature-Agree o o' msg k k' h l hk = Agree-call h λ s s' e. rw (← e.0) (
      Agree-step 4 (Does-put_int s.0) refl λ _ _.
        Agree-if (is_nonzero s.0) (λ ok. record_checks-Agree f g c s.1 s'.1 msg k k' l (e.1 ok) hk)
          (λ _. Agree-pure tt tt tt))

  check_pubkey-Agree :
      (pkser : List ℕ)
      → Agree 102 (SameOption c.SamePubkey) (check_pubkey f pkser) (check_pubkey g pkser)
  unfolding check_pubkey
  check_pubkey-Agree pkser = Agree-call (c.pubkey_parse pkser) λ k k' hk. rw (← hk.0) (
      Agree-step 4 (Does-put_int k.0) refl λ _ _.
        Agree-if (is_nonzero k.0)
          (λ ok.
            Agree-bind 98 (record_pubkey-Agree f g c k.1 k'.1 (hk.1 ok)) refl
              λ _ _ _. Agree-pure _ _ (hk.1 ok))
          (λ _. Agree-pure _ _ tt))

  check_arrays-Agree :
      (a : Arrays) (der : List ℕ)
      → length a.sig64 ≡ 64
      → length a.msg ≡ 32
      → Agree 1050 (λ _ _. Unit {0}) (check_arrays f a der) (check_arrays g a der)
  unfolding check_arrays
  check_arrays-Agree a der ls lm = Agree-bind 102 (check_pubkey-Agree a.pkser) refl λ k k' hk.
      Agree-bind 316 (check_signature-Agree _ _ a.msg k k' (c.parse_compact a.sig64 ls) lm hk) refl
        λ _ _ _.
          Agree-bind 316 (check_signature-Agree _ _ a.msg k k' (c.parse_der der) lm hk) refl
            λ _ _ _. check_signature-Agree _ _ a.msg k k' (c.parse_der_lax der) lm hk

  made-Agree :
      (mode : ℕ) (msg : List ℕ)
      → length msg ≡ 32
      → Agree 76
          (λ a b. (a ≡ b) × IsArrays (key_length (has_flag mode ecdsa_compressed)) 0 a)
          (if has_flag mode ecdsa_sign
            then sign_arrays f mode (key_length (has_flag mode ecdsa_compressed)) msg
            else if has_flag mode ecdsa_from_r
            then construct_arrays f (key_length (has_flag mode ecdsa_compressed)) msg
            else read_arrays (key_length (has_flag mode ecdsa_compressed)) msg)
          (if has_flag mode ecdsa_sign
            then sign_arrays g mode (key_length (has_flag mode ecdsa_compressed)) msg
            else if has_flag mode ecdsa_from_r
            then construct_arrays g (key_length (has_flag mode ecdsa_compressed)) msg
            else read_arrays (key_length (has_flag mode ecdsa_compressed)) msg)
  made-Agree mode msg l =
      Agree-if (has_flag mode ecdsa_sign) (λ _. sign_arrays-Agree f g c mode msg l)
        (λ _.
          Agree-if (has_flag mode ecdsa_from_r)
            (λ _.
              Agree-weaken (omega arith)
                (construct_arrays-Agree f g c (has_flag mode ecdsa_compressed) msg l))
            (λ _.
              Agree-weaken (omega arith)
                (Does-read_arrays (key_length (has_flag mode ecdsa_compressed)) msg l)))

  ecdsa_run-AgreeShort :
      AgreeShort diffsecp_input_max 1130 (λ _ _. Unit {0}) (ecdsa_run f) (ecdsa_run g)
  unfolding ecdsa_run
  ecdsa_run-AgreeShort = AgreeShort-step 0 Does-u8 refl λ mode _.
      AgreeShort-step 0 (Does-take 32) refl λ msg l.
        AgreeShort-bind 76 (Agree-AgreeShort (made-Agree mode msg l)) refl λ made made' e.
          rw (← e.0) (
            AgreeShort-bind 4 (Agree-AgreeShort (first_der-Agree f g c mode made.sig64 e.1.sig64))
              refl
              λ der der' d. rw (← d.0) (
                AgreeShort-step 0 Does-u8 refl λ nmut _.
                  AgreeShort-step 0
                    (Does-ecdsa_mutations (key_length (has_flag mode ecdsa_compressed)) (nmut % 8)
                      523 (record made { der = der })
                      (record { sig64 = e.1.sig64; msg = e.1.msg; pkser = e.1.pkser; der = d.1 })
                      (omega arith))
                    refl
                    λ a v.
                      AgreeShort-bind 0
                        (Short-read_tail a.der 530 (omega (arith, v.der)) (omega arith)) refl
                        λ whole whole' q.
                          rw (← q) (Agree-AgreeShort (check_arrays-Agree a whole v.sig64 v.msg))))

  -- For two builds of libsecp that do the same on every valid call, on every input of at most
  -- `diffsecp_input_max` bytes and with buffers of at least 1130 bytes, whatever these hold:
  -- `target_ecdsa` returns over both builds, so that no call is an illegal one, neither `der` nor the
  -- `body` of a built encoding is written past its end, and the transcript does not overflow; and
  -- both transcripts have the same length, at most 1130, and the same bytes.
  pub target_ecdsa-SameTranscript :
      (input : List ℕ) (len : ℕ) (out out' : List ℕ) (size : ℕ)
      → len ≤ diffsecp_input_max
      → 1130 ≤ size
      → IsCall input len out size
      → IsCall input len out' size
      → SameTranscript 1130 (target_ecdsa f input len out size) (target_ecdsa g input len out' size)
  unfolding target_ecdsa
  target_ecdsa-SameTranscript input len out out' size short room call call' =
      run_target-AgreeShort diffsecp_input_max 1130 (ecdsa_run f) (ecdsa_run g) input len out out'
        size ecdsa_run-AgreeShort short room call call'
