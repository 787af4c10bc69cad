-- ===== src/Ecdsa/Sources.antt =====
-- Where the ECDSA target has its signatures from, over two builds.
use diffsecp.Prelude.{
  ℕ, ◌/◌, ◌%◌, ◌≤◌, ◌≡◌, List, of_bool, refl, arith, length, length-replicate, replicate, Bool,
  true, false, is_nonzero, bit_and, bit_and-one, has_flag, if◌then◌else◌,
}
use diffsecp.Run.Agree.{
  Agree, Shared, Agree-pure, Agree-call, Agree-shared, Agree-step, Agree-if, Agree-post, Agree-bind,
  Agree-weaken,
}
use diffsecp.Run.Steps.{Does-u8, Does-take, Does-put, Does-put_int}
use diffsecp.Ecdsa.Api.{EcdsaApi, default_nonce}
use diffsecp.Ecdsa.Contract.{EcdsaContract}
use diffsecp.Ecdsa.Der.{ecdsa_der_max}
use diffsecp.Ecdsa.Sequence.{Does-ecdsa_der_build}
use diffsecp.Ecdsa.Target.{ecdsa_r_count}
use diffsecp.Ecdsa.Machine.{
  ecdsa_compressed, ecdsa_der, ecdsa_built_der, ecdsa_with_nonce, sign_msg, sign_arrays,
  construct_arrays, first_der,
}
use diffsecp.Ecdsa.Records.{construct-Agree}
use diffsecp.Ecdsa.Signing.{SameSigning, sign-Agree, sign_nonce-Agree}
use diffsecp.Ecdsa.Arrays.{IsArrays, Does-read_ndata}

abbrev pub key_length : Bool → ℕ
key_length compressed = if compressed then 33 else 65

module _ (f g : EcdsaApi) (c : EcdsaContract f g) where
  sign_msg-Agree :
      (mode : ℕ) (msg seckey : List ℕ)
      → length msg ≡ 32
      → length seckey ≡ 32
      → Agree 4 (SameSigning f g c) (sign_msg f mode msg seckey) (sign_msg g mode msg seckey)
  unfolding sign_msg
  sign_msg-Agree mode msg seckey lm ls = Agree-step 0 (Does-read_ndata mode) refl λ ndata ln.
      Agree-if (has_flag mode ecdsa_with_nonce)
        (λ _. sign_nonce-Agree f g c msg seckey ndata lm ls ln)
        (λ _. Agree-weaken (omega arith) (
          sign-Agree f g c msg seckey (default_nonce ndata) (default_nonce ndata) lm ls (refl, ln)))

  serialized :
      (b : Bool) (k : f.Pubkey) (k' : g.Pubkey)
      → c.SamePubkey k k'
      → Shared
          (λ ser. length ser ≡ key_length b)
          (f.pubkey_serialize k (key_length b) b)
          (g.pubkey_serialize k' (key_length b) b)
  serialized true k k' hk = c.pubkey_serialize k k' 33 true (omega arith) hk
  serialized false k k' hk = c.pubkey_serialize k k' 65 false (omega arith) hk

  pub sign_arrays-Agree :
      (mode : ℕ) (msg : List ℕ)
      → length msg ≡ 32
      → Agree 76
          (λ a b. (a ≡ b) × IsArrays (key_length (has_flag mode ecdsa_compressed)) 0 a)
          (sign_arrays f mode (key_length (has_flag mode ecdsa_compressed)) msg)
          (sign_arrays g mode (key_length (has_flag mode ecdsa_compressed)) msg)
  unfolding sign_arrays
  sign_arrays-Agree mode msg lm = Agree-step 0 (Does-take 32) refl λ seckey ls.
      Agree-call (c.pubkey_create seckey ls) λ k k' hk. rw (← hk.0) (
        Agree-step 4 (Does-put_int k.0) refl λ _ _.
          Agree-if (is_nonzero k.0)
            (λ ok.
              Agree-shared (serialized (has_flag mode ecdsa_compressed) k.1 k'.1 (hk.1 ok))
                λ pkser lp. Agree-bind 4 (sign_msg-Agree mode msg seckey lm ls) refl λ s s' hs.
                  rw (← hs.0.0, ← hs.1.0)
                    (Agree-step 4 (Does-put_int s.0.0) refl λ _ _.
                      Agree-if (is_nonzero s.0.0)
                        (λ good.
                          Agree-shared (c.serialize_compact s.0.1 s'.0.1 (hs.0.1 good)) λ b lb.
                            Agree-step 64 (Does-put b 64 (omega (arith, lb))) refl λ _ _.
                              Agree-pure _ _ (
                                refl,
                                record { sig64 = lb; msg = hs.1.1; pkser = lp; der = omega arith },
                              ))
                        (λ _. Agree-pure _ _ (
                          refl,
                          record {
                            sig64 = length-replicate {0} {A = ℕ} 64 0;
                            msg = hs.1.1;
                            pkser = lp;
                            der = omega arith;
                          },
                        ))))
            (λ _. Agree-pure _ _ (
              refl,
              record {
                sig64 = length-replicate {0} {A = ℕ} 64 0;
                msg = lm;
                pkser =
                    length-replicate {0} {A = ℕ} (key_length (has_flag mode ecdsa_compressed)) 0;
                der = omega arith;
              },
            )))

  pub construct_arrays-Agree :
      (b : Bool) (msg : List ℕ)
      → length msg ≡ 32
      → Agree 4
          (λ a a'. (a ≡ a') × IsArrays (key_length b) 0 a)
          (construct_arrays f (key_length b) msg)
          (construct_arrays g (key_length b) msg)
  unfolding construct_arrays
  construct_arrays-Agree b msg lm = Agree-step 0 Does-u8 refl λ kind _.
      Agree-step 0 (Does-take 32) refl λ x32 lx. Agree-step 0 (Does-take 64) refl λ sig64 ls.
        Agree-bind 0
          (construct-Agree f g c (replicate (key_length b) 0) b sig64 msg (kind / 2 % ecdsa_r_count)
            (bit_and kind 1) x32 (length-replicate {0} {A = ℕ} (key_length b) 0) ls lm
            (omega (arith, bit_and-one kind)) lx)
          refl
          λ p p' e. rw (← e.same) (
            Agree-step 4 (Does-put_int (of_bool p.0)) refl λ _ _.
              Agree-pure _ _
                (refl, record { sig64 = e.sig64; msg = lm; pkser = e.pkser; der = omega arith }))

  pub first_der-Agree :
      (mode : ℕ) (sig64 : List ℕ)
      → length sig64 ≡ 64
      → Agree 4
          (λ a b. (a ≡ b) × (length a ≤ 523))
          (first_der f mode sig64)
          (first_der g mode sig64)
  unfolding first_der
  first_der-Agree mode sig64 l =
      Agree-if (has_flag mode ecdsa_built_der)
        (λ _. Agree-weaken (omega arith) (Agree-post Does-ecdsa_der_build λ a b q. (q.0, q.1.1)))
        (λ _.
          Agree-if (has_flag mode ecdsa_der)
            (λ _. Agree-call (c.parse_compact sig64 l) λ s s' hs. rw (← hs.0) (
              Agree-if (is_nonzero s.0)
                (λ ok. Agree-call (c.serialize_der s.1 s'.1 ecdsa_der_max (hs.1 ok)) λ d d' e.
                  let written = e.enough (omega arith) in
                  rw (← e.same_ret, ← e.same_der written)
                    (Agree-step 4 (Does-put_int d.0) refl
                      λ _ _. Agree-pure _ _ (refl, omega (arith, e.length_der written, e.small))))
                (λ _. Agree-pure _ _ (refl, omega arith))))
            (λ _. Agree-pure _ _ (refl, omega arith)))
