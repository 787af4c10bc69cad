-- ===== src/Schnorrsig/Records.antt =====
-- The functions of the Schnorr target that record what they do, over two builds.
use diffsecp.Prelude.{
  ℕ, ◌%◌, ◌≤◌, pos, List, ◌≡◌, refl, arith, Bool, true, false, Option, some, none, length,
  is_nonzero, bit_and, bit_and-one, bit_xor, bit_xor-lt, if◌then◌else◌, has_flag,
}
use diffsecp.Run.Agree.{
  Agree, Agree-pure, Agree-call, Agree-shared, Agree-step, Agree-if, Agree-post, Agree-bind,
  Agree-weaken,
}
use diffsecp.Run.Steps.{Does-u8, Does-take, Does-put, Does-put_int}
use diffsecp.Run.Results.{SameOption}
use diffsecp.Run.Mutate.{xor_at, length-xor_at}
use diffsecp.Schnorrsig.Api.{SchnorrsigApi}
use diffsecp.Schnorrsig.Contract.{SchnorrsigContract, SameExtra}
use diffsecp.Schnorrsig.Target.{
  cancelled, schnorrsig_record_tweak, extraparams, sign_message, verify_message,
  schnorrsig_record_custom, schnorrsig_tagged, schnorrsig_fixed, nonce_name,
}

module _ (f g : SchnorrsigApi) (c : SchnorrsigContract f g) where
  pub record_tweak-Agree :
      (x : f.Xonly) (y : g.Xonly) (cancel : Option (List ℕ))
      → c.SameXonly x y
      → ((b : List ℕ) → cancel ≡ some b → length b ≡ 32)
      → Agree 52
          (λ _ _. Unit {0})
          (schnorrsig_record_tweak f x cancel)
          (schnorrsig_record_tweak g y cancel)
  unfolding schnorrsig_record_tweak
  record_tweak-Agree x y cancel h lc = Agree-step 0 (Does-take 32) refl λ fuzzed lf.
      let t = cancelled cancel fuzzed in
      let lt : length t ≡ 32 = tweak_size cancel fuzzed lf lc in
      Agree-call (c.xonly_tweak_add t x y lt h) λ k k' hk. rw (← hk.0) (
        Agree-step 4 (Does-put_int k.0) refl λ _ _.
          Agree-if (is_nonzero k.0)
            (λ ok. Agree-call (c.xonly_from_pubkey k.1 k'.1 (hk.1 ok)) λ z z' hz. rw (← hz.0) (
              Agree-step 4 (Does-put_int z.0) refl λ _ _.
                Agree-if (is_nonzero z.0)
                  (λ good.
                    let hz1 = hz.1 good in
                    Agree-shared (c.xonly_serialize z.1.1 z'.1.1 hz1.1.1) λ b lb. rw (← hz1.1.0) (
                      Agree-step 4 (Does-put_int (pos z.1.0)) refl λ _ _.
                        Agree-step 32 (Does-put b 32 (omega (arith, lb))) refl λ _ _.
                          Agree-shared (c.xonly_tweak_add_check b t z.1.0 x y lb lt hz1.0 h) λ v _.
                            Agree-step 4 (Does-put_int v) refl λ _ _.
                              Agree-step 0 Does-u8 refl λ flip _.
                                Agree-step 0 Does-u8 refl λ place _.
                                  Agree-step 0 Does-u8 refl λ mask _.
                                    Agree-shared
                                      (c.xonly_tweak_add_check (xor_at b (place % 32) mask) t
                                        (bit_xor z.1.0 (bit_and flip 1)) x y
                                        (omega (arith, lb, length-xor_at b (place % 32) mask)) lt
                                        (parity_bound z.1.0 flip hz1.0) h)
                                      λ w _. Agree-post (Does-put_int w) (λ _ _ _. tt)))
                  (λ _. Agree-pure tt tt tt)))
            (λ _. Agree-shared (c.xonly_serialize x y h) λ b lb.
              Agree-shared (c.xonly_tweak_add_check b t 0 x y lb lt (omega arith) h)
                λ v _. Agree-post (Agree-weaken (omega arith) (Does-put_int v)) (λ _ _ _. tt)))
    where
      tweak_size :
          (o : Option (List ℕ)) (b : List ℕ)
          → length b ≡ 32
          → ((d : List ℕ) → o ≡ some d → length d ≡ 32)
          → length (cancelled o b) ≡ 32
      tweak_size none b l m = l
      tweak_size (some d) b l m = m d refl

      parity_bound : (p flip : ℕ) → p ≤ 1 → bit_xor p (bit_and flip 1) ≤ 1
      parity_bound p flip l =
          omega
            (arith, bit_xor-lt 1 p (bit_and flip 1) (omega arith) (omega (arith, bit_and-one flip)))

  extraparams-SameExtra :
      (mode : ℕ) (nonce : List ℕ)
      → length nonce ≡ 32
      → SameExtra (extraparams f mode nonce) (extraparams g mode nonce)
  extraparams-SameExtra mode nonce l =
      by_flags (has_flag mode 70) (has_flag mode schnorrsig_tagged) (has_flag mode schnorrsig_fixed)
    where
      by_flags :
          (a b d : Bool)
          → SameExtra
              (if a
                then some (record {
                  noncefp =
                      if b
                      then some (λ m k p al n. f.nonce_function_bip340 m k p (nonce_name n))
                      else if d
                      then some (λ m k p al n. some (pos 1, n))
                      else none;
                  ndata = nonce;
                })
                else none)
              (if a
                then some (record {
                  noncefp =
                      if b
                      then some (λ m k p al n. g.nonce_function_bip340 m k p (nonce_name n))
                      else if d
                      then some (λ m k p al n. some (pos 1, n))
                      else none;
                  ndata = nonce;
                })
                else none)
      by_flags false b d = tt
      by_flags true true d =
          ((λ m k p al n lk lp ln. c.nonce_function_bip340 m k p (nonce_name n) lk lp), (refl, l))
      by_flags true false true =
          ((λ m k p al n lk lp ln. (_, _, refl, refl, (refl, λ _. (refl, ln)))), (refl, l))
      by_flags true false false = (tt, (refl, l))

  abbrev pub SameSigner : f.Keypair × f.Xonly → g.Keypair × g.Xonly → Type 0
  SameSigner s s' = c.SameKeypair s.0 s'.0 × c.SameXonly s.1 s'.1

  sign_message-Agree :
      (mode place mask : ℕ) (msg nonce : List ℕ) (s : Option (f.Keypair × f.Xonly))
      (s' : Option (g.Keypair × g.Xonly))
      → length nonce ≡ 32
      → SameOption SameSigner s s'
      → Agree 72
          (λ _ _. Unit {0})
          (sign_message f mode msg nonce place mask s)
          (sign_message g mode msg nonce place mask s')
  unfolding sign_message
  sign_message-Agree mode place mask msg nonce none none l h = Agree-pure tt tt tt
  sign_message-Agree mode place mask msg nonce none (some (k', y)) l h = absurd h
  sign_message-Agree mode place mask msg nonce (some (k, x)) none l h = absurd h
  sign_message-Agree mode place mask msg nonce (some (k, x)) (some (k', y)) l h =
      Agree-call (c.sign_custom msg k k' _ _ h.0 (extraparams-SameExtra mode nonce l)) λ s s' e.
        rw (← e.0) (
          Agree-step 4 (Does-put_int s.0) refl λ _ _.
            Agree-if (is_nonzero s.0)
              (λ ok. rw (← (e.1 ok).0) (
                Agree-step 64 (Does-put s.1 64 (omega (arith, (e.1 ok).1))) refl λ _ _.
                  Agree-shared
                    (c.verify (xor_at s.1 (place % 64) mask) msg x y
                      (omega (arith, (e.1 ok).1, length-xor_at s.1 (place % 64) mask)) h.1)
                    λ v _. Agree-post (Does-put_int v) (λ _ _ _. tt)))
              (λ _. Agree-pure tt tt tt))

  verify_message-Agree :
      (sig64 msg : List ℕ) (k : Option f.Xonly) (k' : Option g.Xonly)
      → length sig64 ≡ 64
      → SameOption c.SameXonly k k'
      → Agree 4 (λ _ _. Unit {0}) (verify_message f sig64 msg k) (verify_message g sig64 msg k')
  unfolding verify_message
  verify_message-Agree sig64 msg none none l h = Agree-pure tt tt tt
  verify_message-Agree sig64 msg none (some y) l h = absurd h
  verify_message-Agree sig64 msg (some x) none l h = absurd h
  verify_message-Agree sig64 msg (some x) (some y) l h =
      Agree-shared (c.verify sig64 msg x y l h) λ v _. Agree-post (Does-put_int v) (λ _ _ _. tt)

  pub record_custom-Agree :
      (mode : ℕ) (sig64 : List ℕ) (k : Option f.Xonly) (k' : Option g.Xonly)
      (s : Option (f.Keypair × f.Xonly)) (s' : Option (g.Keypair × g.Xonly))
      → length sig64 ≡ 64
      → SameOption c.SameXonly k k'
      → SameOption SameSigner s s'
      → Agree 76
          (λ _ _. Unit {0})
          (schnorrsig_record_custom f mode sig64 k s)
          (schnorrsig_record_custom g mode sig64 k' s')
  unfolding schnorrsig_record_custom
  record_custom-Agree mode sig64 k k' s s' l hk hs = Agree-step 0 Does-u8 refl λ msglen _.
      Agree-step 0 (Does-take msglen) refl λ msg _. Agree-step 0 (Does-take 32) refl λ nonce ln.
        Agree-step 0 Does-u8 refl λ place _. Agree-step 0 Does-u8 refl λ mask _.
          Agree-bind 4 (verify_message-Agree sig64 msg k k' l hk) refl
            λ _ _ _. sign_message-Agree mode place mask msg nonce s s' ln hs
