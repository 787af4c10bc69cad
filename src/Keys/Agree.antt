-- ===== src/Keys/Agree.antt =====
-- The keys target as a whole: no illegal call, a bounded transcript, and builds that agree.
use diffsecp.Prelude.{
  ℕ, ◌*◌, ◌%◌, ◌/◌, ◌^◌, ◌≤◌, ◌<◌, ◌≡◌, ◌≢◌, List, refl, arith, All-get_or, true, false, not,
  is_nonzero, ◌&&◌, ◌==◌, bit_and, length-replicate, Bool-cases, inl, inr,
}
use diffsecp.Run.Array.{store_related}
use diffsecp.Run.Agree.{
  Agree, Agree-pure, Agree-call, Agree-shared, Agree-step, Agree-if, Agree-bind,
}
use diffsecp.Run.Steps.{Does-u8, Does-put_u8, Does-put_int, Does-take}
use diffsecp.Run.Loop.{while_input-Agree}
use diffsecp.Run.Whole.{IsCall, SameTranscript, run_target-Agree}
use diffsecp.Keys.Api.{KeysApi}
use diffsecp.Keys.Contract.{KeysContract}
use diffsecp.Keys.Target.{KeysOp, Reg, Regs, keys_op, keys_ops, keys_sign, parse_size}
use diffsecp.Keys.Machine.{keys_switch, emptied, keys_step, keys_run, target_keys}
use diffsecp.Keys.Records.{
  RegAgree, RegsAgree, Does-keys_take_tweak, keys_record_reg-Agree, keys_ecdh-Agree,
}
use diffsecp.Keys.Cases.{
  valid_keys-Pairwise, keys_sort-Agree, pubkey_case_agree, combine_keys_agree, seckey_case_agree,
  keypair_tweak_agree, xonly_agree,
}

abbrev IsCase : KeysOp → Type 0
IsCase op = op ≢ KeysOp.op_count

-- A reduced opcode is never `KEYS_OP_COUNT`.
keys_op-IsCase : (n : ℕ) → n < 15 → IsCase (keys_op n)
keys_op-IsCase n h = All-get_or IsCase keys_ops n KeysOp.op_count h (ground arith)

module _ (f g : KeysApi) (c : KeysContract f g) where
  module _ {reg : Regs f} {reg' : Regs g} (h : RegsAgree f g c reg reg') {a b res : Reg f}
      {a' b' res' : Reg g} (ha : RegAgree f g c a a') (hb : RegAgree f g c b b')
      (hr : RegAgree f g c res res') (sel : ℕ) where
    -- The whole switch: only `KEYS_OP_COUNT` aborts.
    keys_switch-Agree :
        (op : KeysOp)
        → IsCase op
        → Agree 144
            (λ s s'. RegAgree f g c s s')
            (keys_switch f op sel reg a b res)
            (keys_switch g op sel reg' a' b' res')
    unfolding keys_switch
    keys_switch-Agree KeysOp.seckey_load ne = Agree-step 0 (Does-take 32) refl λ sk l.
        Agree-shared (c.seckey_verify sk l) λ ok _. Agree-step 4 (Does-put_int ok) refl λ _ _.
          Agree-pure _ _ (record { same_sk = refl; size = l; same_ok = hr.same_ok; key = hr.key })
    keys_switch-Agree KeysOp.seckey_negate ne =
        rw (← ha.same_sk) (seckey_case_agree f g c hr (c.seckey_negate a.sk ha.size))
    keys_switch-Agree KeysOp.seckey_tweak_add ne =
        rw (← ha.same_sk, ← hb.same_sk)
          (Agree-step 0 (Does-keys_take_tweak sel b.sk hb.size) refl
            λ tweak l. seckey_case_agree f g c hr (c.seckey_tweak_add a.sk tweak ha.size l))
    keys_switch-Agree KeysOp.seckey_tweak_mul ne = rw (← ha.same_sk) (
        Agree-step 0 (Does-take 32) refl
          λ tweak l. seckey_case_agree f g c hr (c.seckey_tweak_mul a.sk tweak ha.size l))
    keys_switch-Agree KeysOp.pubkey_create ne =
        rw (← ha.same_sk) (pubkey_case_agree f g c hr (c.pubkey_create a.sk ha.size))
    keys_switch-Agree KeysOp.pubkey_parse ne = Agree-step 0 Does-u8 refl λ flags _.
        Agree-step 0 (Does-take (parse_size flags)) refl
          λ ser l. pubkey_case_agree f g c hr (c.pubkey_parse ser (parse_size flags) l)
    keys_switch-Agree KeysOp.pubkey_negate ne = rw (← ha.same_ok) (
        Agree-if (is_nonzero a.pk_ok)
          (λ ok. pubkey_case_agree f g c hr (c.pubkey_negate a.pk a'.pk (ha.key ok)))
          (λ _. Agree-pure _ _ hr))
    keys_switch-Agree KeysOp.pubkey_tweak_add ne =
        rw (← ha.same_ok, ← hb.same_sk)
          (Agree-step 0 (Does-keys_take_tweak sel b.sk hb.size) refl λ tweak l.
            Agree-if (is_nonzero a.pk_ok)
              (λ ok. pubkey_case_agree f g c hr (c.pubkey_tweak_add tweak a.pk a'.pk l (ha.key ok)))
              (λ _. Agree-pure _ _ hr))
    keys_switch-Agree KeysOp.pubkey_tweak_mul ne = rw (← ha.same_ok) (
        Agree-step 0 (Does-take 32) refl λ tweak l.
          Agree-if (is_nonzero a.pk_ok)
            (λ ok. pubkey_case_agree f g c hr (c.pubkey_tweak_mul tweak a.pk a'.pk l (ha.key ok)))
            (λ _. Agree-pure _ _ hr))
    keys_switch-Agree KeysOp.pubkey_combine ne = Agree-step 0 Does-u8 refl λ flags _.
        combine_keys_agree f g c hr _ _
          (valid_keys-Pairwise f g c (λ j. bit_and (flags / 2 ^ j) 1 == 1) 4 0 reg reg' h).0
    keys_switch-Agree KeysOp.pubkey_cmp ne =
        rw (← ha.same_ok, ← hb.same_ok)
          (Agree-if (is_nonzero a.pk_ok && is_nonzero b.pk_ok)
            (λ ok.
              Agree-call
                (c.pubkey_cmp a.pk b.pk a'.pk b'.pk (ha.key (ground (arith, ok)))
                  (hb.key (ground (arith, ok))))
                λ k k' e.
                  rw (← e)
                    (Agree-step 4 (Does-put_int (keys_sign k)) refl λ _ _. Agree-pure _ _ hr))
            (λ _. Agree-pure _ _ hr))
    keys_switch-Agree KeysOp.pubkey_sort ne =
        Agree-bind 136 (keys_sort-Agree f g c reg reg' h) refl λ _ _ _. Agree-pure _ _ hr
    keys_switch-Agree KeysOp.keypair_tweak ne = rw (← ha.same_sk) (
        Agree-step 0 (Does-take 32) refl
          λ tweak l. keypair_tweak_agree f g c hr a.sk tweak ha.size l)
    keys_switch-Agree KeysOp.xonly ne =
        Agree-step 0 (Does-take 32) refl λ tweak l. xonly_agree f g c hr a b a' b' tweak l ha hb
    keys_switch-Agree KeysOp.ecdh ne = simp (← ha.same_ok) (
        Agree-if (is_nonzero a.pk_ok)
          (λ ok.
            Agree-bind 144 (keys_ecdh-Agree f g c a b a' b' (not (bit_and sel 128 == 0)) ha hb ok)
              refl λ _ _ _. Agree-pure _ _ hr)
          (λ _. Agree-pure _ _ hr))
    keys_switch-Agree KeysOp.op_count ne = absurd (ne refl)

  emptied-RegAgree :
      (x : Reg f) (y : Reg g) → RegAgree f g c x y → RegAgree f g c (emptied f x) (emptied g y)
  unfolding emptied
  emptied-RegAgree x y h = elim (Bool-cases (is_nonzero x.pk_ok)) [
    | inl good ↦ let good' : is_nonzero y.pk_ok ≡ true = rw (← h.same_ok) good in rw (good, good') h
    | inr bad ↦
        let bad' : is_nonzero y.pk_ok ≡ false = rw (← h.same_ok) bad in
        rw (bad, bad')
          (record {
            same_sk = h.same_sk;
            size = h.size;
            same_ok = h.same_ok;
            key = λ e. ground (arith, bad, e);
          })
  ]

  keys_step-Agree :
      (reg : Regs f) (reg' : Regs g)
      → RegsAgree f g c reg reg'
      → Agree 214 (λ s s'. RegsAgree f g c s s') (keys_step f reg) (keys_step g reg')
  unfolding keys_step
  keys_step-Agree reg reg' h = Agree-step 0 Does-u8 refl λ n _. Agree-step 0 Does-u8 refl λ sel _.
      Agree-step 1 (Does-put_u8 (n % 15)) refl λ _ _.
        Agree-bind 144
          (keys_switch-Agree h (h ((sel / 4) % 4)) (h ((sel / 16) % 4)) (h (sel % 4)) sel
            (keys_op (n % 15)) (keys_op-IsCase (n % 15) (omega arith)))
          refl
          λ s s' k.
            let e = emptied-RegAgree s s' k in
            Agree-bind 69 (keys_record_reg-Agree f g c (emptied f s) (emptied g s') e) refl
              λ _ _ _. Agree-pure _ _ (store_related (RegAgree f g c) (sel % 4) h e)

  keys_run-Agree : Agree (64 * 214) (λ _ _. Unit {0}) (keys_run f) (keys_run g)
  unfolding keys_run
  keys_run-Agree =
      while_input-Agree (RegsAgree f g c) 214 (keys_step f) (keys_step g) keys_step-Agree 64
        (64 * 214) _ _ (omega arith)
        (λ i. record {
          same_sk = refl;
          size = length-replicate {0} {A = ℕ} 32 0;
          same_ok = refl;
          key = λ e. ground (arith, e);
        })

  -- For two builds of libsecp that keep to the documented contract of the key functions, on every
  -- input and with buffers of at least 13696 bytes, whatever these hold: `target_keys` returns over
  -- both builds, so that no call gets an invalid public key, key pair or x-only key, and the
  -- transcript does not overflow; and both transcripts have the same length, at most 13696, and the
  -- same bytes.
  pub target_keys-SameTranscript :
      (input : List ℕ) (len : ℕ) (out out' : List ℕ) (size : ℕ)
      → 13696 ≤ size
      → IsCall input len out size
      → IsCall input len out' size
      → SameTranscript 13696 (target_keys f input len out size) (target_keys g input len out' size)
  unfolding target_keys
  target_keys-SameTranscript input len out out' size room call call' =
      run_target-Agree 13696 (keys_run f) (keys_run g) input len out out' size keys_run-Agree room
        call call'
