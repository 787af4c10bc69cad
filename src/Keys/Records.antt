-- ===== src/Keys/Records.antt =====
-- The registers of the keys target over two builds, and the functions that record them.
use diffsecp.Prelude.{
  ℕ, ℤ, List, ◌≡◌, refl, arith, length, length-append, length-take, length-drop, take, drop, true,
  false, Bool, is_nonzero, if◌then◌else◌, length-replicate, ◌==◌, bit_and,
}
use diffsecp.Run.{lift, put, put_int, ◌>>=◌, ◌>>◌}
use diffsecp.Run.Agree.{
  Agree, Does, Agree-pure, Agree-call, Agree-shared, Agree-step, Agree-if, Agree-post, Agree-bind,
}
use diffsecp.Run.Steps.{Does-take, Does-put, Does-put_int}
use diffsecp.Keys.Api.{KeysApi, EcdhHash}
use diffsecp.Keys.Contract.{KeysContract, IsHash}
use diffsecp.Keys.Target.{
  Reg, Regs, keys_take_tweak, keys_seckey_result, keys_record_pubkey, keys_record_reg, keys_ecdh,
  keys_ecdh_xy, keys_ecdh_reject,
}

pub Does-keys_take_tweak :
    (sel : ℕ) (sk : List ℕ) → length sk ≡ 32 → Does 0 (λ t. length t ≡ 32) (keys_take_tweak sel sk)
unfolding keys_take_tweak
Does-keys_take_tweak sel sk l =
    Agree-if (bit_and sel 64 == 0) (λ _. Does-take 32) (λ _. Agree-pure sk sk (refl, l))

-- The key that is kept has 32 bytes, and both builds keep the same.
pub keys_seckey_result-Agree :
    (ret : ℤ) (k k' : List ℕ)
    → (is_nonzero ret ≡ true → (k ≡ k') × (length k ≡ 32))
    → Agree 4
        (λ a b. (a ≡ b) × (length a ≡ 32))
        (keys_seckey_result k ret)
        (keys_seckey_result k' ret)
unfolding keys_seckey_result
keys_seckey_result-Agree ret k k' h = Agree-step 4 (Does-put_int ret) refl λ _ _.
    Agree-if (is_nonzero ret) (λ ok. Agree-pure k k' (h ok))
      (λ _. Agree-pure _ _ (refl, length-replicate {0} {A = ℕ} 32 0))

module _ (f g : KeysApi) (c : KeysContract f g) where
  -- Both builds hold the same secret key and, where `pk_ok` is not 0, the same public key.
  pub record RegAgree (x : Reg f) (y : Reg g) : Type 0 where
    pub same_sk : x.sk ≡ y.sk
    pub size : length x.sk ≡ 32
    pub same_ok : x.pk_ok ≡ y.pk_ok
    pub key : is_nonzero x.pk_ok ≡ true → c.Same x.pk y.pk

  abbrev pub RegsAgree : Regs f → Regs g → Type 0
  RegsAgree reg reg' = (i : ℕ) → RegAgree (reg i) (reg' i)

  pub keys_record_pubkey-Agree :
      (p : f.Pubkey) (q : g.Pubkey)
      → c.Same p q
      → Agree 33 (λ _ _. Unit {0}) (keys_record_pubkey f p) (keys_record_pubkey g q)
  unfolding keys_record_pubkey
  keys_record_pubkey-Agree p q h =
      Agree-shared (c.pubkey_serialize 33 p q (omega arith) h)
        λ b l. Agree-post (Does-put b 33 (omega (arith, l))) (λ _ _ _. tt)

  pub keys_record_reg-Agree :
      (x : Reg f) (y : Reg g)
      → RegAgree x y
      → Agree 69 (λ _ _. Unit {0}) (keys_record_reg f x) (keys_record_reg g y)
  unfolding keys_record_reg
  keys_record_reg-Agree x y h =
      rw (← h.same_sk, ← h.same_ok)
        (Agree-step 32 (Does-put x.sk 32 (omega (arith, h.size))) refl λ _ _.
          Agree-step 4 (Does-put_int x.pk_ok) refl λ _ _.
            Agree-if (is_nonzero x.pk_ok) (λ ok. keys_record_pubkey-Agree x.pk y.pk (h.key ok))
              (λ _. Agree-pure tt tt tt))

  -- Both builds record the same hashes and coordinates of the shared point.
  pub keys_ecdh-Agree :
      (a b : Reg f) (a' b' : Reg g) (named : Bool)
      → RegAgree a a'
      → RegAgree b b'
      → is_nonzero a.pk_ok ≡ true
      → Agree 144 (λ _ _. Unit {0}) (keys_ecdh f a b named) (keys_ecdh g a' b' named)
  unfolding keys_ecdh
  keys_ecdh-Agree a b a' b' named ha hb ok = rw (← hb.same_sk) (
      Agree-call
        (c.ecdh (if named then EcdhHash.named_sha256 else EcdhHash.null_hash) 32 b.sk a.pk a'.pk
          (default named) hb.size (ha.key ok))
        λ h h' eh. rw (← eh.0) (
          Agree-step 4 (Does-put_int h.0) refl λ _ _.
            Agree-bind {P = λ _ _. Unit {0}} 32
              (Agree-if (is_nonzero h.0)
                (λ good.
                  rw (← (eh.1 good).0)
                    (Agree-post (Does-put h.1 32 (omega (arith, (eh.1 good).1))) (λ _ _ _. tt)))
                (λ _. Agree-pure tt tt tt))
              refl
              λ u u' k.
                Agree-call
                  (c.ecdh (EcdhHash.own_hash keys_ecdh_xy) 64 b.sk a.pk a'.pk coordinates hb.size
                    (ha.key ok))
                  λ p p' ep. rw (← ep.0) (
                    Agree-step 4 (Does-put_int p.0) refl λ _ _.
                      Agree-bind {P = λ _ _. Unit {0}} 100
                        (Agree-if (is_nonzero p.0)
                          (λ good. rw (← (ep.1 good).0) (hash_again p.1 (ep.1 good).1))
                          (λ _. Agree-pure tt tt tt))
                        refl
                        λ v v' k'.
                          Agree-call
                            (c.ecdh (EcdhHash.own_hash keys_ecdh_reject) 0 b.sk a.pk a'.pk
                              (λ x y l m e. refl) hb.size (ha.key ok))
                            λ q q' eq. rw (← eq.0) (Agree-post (Does-put_int q.0) (λ _ _ _. tt)))))
    where
      default : (n : Bool) → IsHash (if n then EcdhHash.named_sha256 else EcdhHash.null_hash) 32
      default true = refl
      default false = refl

      coordinates : IsHash (EcdhHash.own_hash keys_ecdh_xy) 64
      coordinates x y l m e = omega (arith, length-append {0} x y, l, m)

      hash_again :
          (xy : List ℕ)
          → length xy ≡ 64
          → Agree 100
              (λ _ _. Unit {0})
              (do
                put xy
                s ← lift (f.ecdh_hash_function_sha256 (take 32 xy) (drop 32 xy))
                put_int s.0
                put s.1)
              (do
                put xy
                s ← lift (g.ecdh_hash_function_sha256 (take 32 xy) (drop 32 xy))
                put_int s.0
                put s.1)
      hash_again xy l = Agree-step 64 (Does-put xy 64 (omega (arith, l))) refl λ _ _.
          Agree-shared
            (c.ecdh_hash_function_sha256 (take 32 xy) (drop 32 xy)
              (omega (arith, l, length-take {0} 32 xy)) (omega (arith, l, length-drop {0} 32 xy)))
            λ s ls.
              Agree-step 4 (Does-put_int s.0) refl
                λ _ _. Agree-post (Does-put s.1 32 (omega (arith, ls))) (λ _ _ _. tt)
