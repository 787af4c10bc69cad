-- ===== src/Schnorrsig/Parts.antt =====
-- The parts of a signature in the Schnorr target, and what the input changes of them, over two builds.
use diffsecp.Prelude.{
  ℕ, ◌%◌, ◌≡◌, List, Option, some, of_bool, refl, arith, length, Bool, true, false, ◌==◌,
  Bool-cases, inl, inr, has_flag,
}
use diffsecp.Run.Agree.{Agree, Does, Agree-pure, Agree-call, Agree-step, Agree-if, Agree-bind}
use diffsecp.Run.Steps.{Does-take, Does-put, Does-put_int}
use diffsecp.Run.Mutate.{length-xor_at}
use diffsecp.Run.Results.{SameBytes}
use diffsecp.Run.{pure, ◌>>◌, put, put_int}
use diffsecp.Schnorrsig.Api.{SchnorrsigApi}
use diffsecp.Schnorrsig.Contract.{SchnorrsigContract, FailsAlike}
use diffsecp.Schnorrsig.Target.{
  Parts, schnorrsig_mutate, read_parts, schnorrsig_odd, schnorrsig_infinity,
  schnorrsig_cancel_tweak,
}
use diffsecp.Schnorrsig.Machine.{kept_if, spoil, negated_key, make_cancel}
use diffsecp.Schnorrsig.Constructed.{SameAnswer, even_key-Agree, odd_r-Agree, infinity_r-Agree}

pub record IsParts (p : Parts) : Type 0 where
  pub sig64 : length p.sig64 ≡ 64
  pub msg : length p.msg ≡ 32
  pub pk32 : length p.pk32 ≡ 32

pub mutate-IsParts :
    (p : Parts) (which place mask : ℕ) → IsParts p → IsParts (schnorrsig_mutate p which place mask)
unfolding schnorrsig_mutate
mutate-IsParts p which place mask v = elim (Bool-cases (which == 0)) [
  | inl e ↦ rw e (record {
    sig64 = omega (arith, v.sig64, length-xor_at p.sig64 (place % 64) mask);
    msg = v.msg;
    pk32 = v.pk32;
  })
  | inr ne ↦ rw ne (elim (Bool-cases (which == 1)) [
    | inl e ↦ rw e (record {
      sig64 = v.sig64;
      msg = omega (arith, v.msg, length-xor_at p.msg (place % 32) mask);
      pk32 = v.pk32;
    })
    | inr ne' ↦ rw ne' (record {
      sig64 = v.sig64;
      msg = v.msg;
      pk32 = omega (arith, v.pk32, length-xor_at p.pk32 (place % 32) mask);
    })
  ])
]

pub Does-read_parts : (msg : List ℕ) → length msg ≡ 32 → Does 0 IsParts (read_parts msg)
unfolding read_parts
Does-read_parts msg l = Agree-step 0 (Does-take 32) refl λ pk32 lp.
    Agree-step 0 (Does-take 64) refl
      λ sig64 ls. Agree-pure _ _ (refl, record { sig64 = ls; msg = l; pk32 = lp })

abbrev pub IsTweak : Option (List ℕ) → Type 0
IsTweak o = (b : List ℕ) → o ≡ some b → length b ≡ 32

kept_if-IsTweak : (ok : Bool) (b : List ℕ) → length b ≡ 32 → IsTweak (kept_if (ok, b))
kept_if-IsTweak true b l d e = ground (arith, e, l)
kept_if-IsTweak false b l d e = ground (arith, e)

module _ (f g : SchnorrsigApi) (c : SchnorrsigContract f g) (u : FailsAlike f g c) where
  pub spoil-Agree :
      (mode : ℕ) (sig64 msg pk32 : List ℕ) (k : f.Keypair) (k' : g.Keypair) (parity : ℕ)
      → length sig64 ≡ 64
      → c.SameKeypair k k'
      → Agree 68
          (SameBytes 64)
          (spoil f mode sig64 msg k parity pk32)
          (spoil g mode sig64 msg k' parity pk32)
  unfolding spoil
  spoil-Agree mode sig64 msg pk32 k k' parity l h =
      Agree-if (has_flag mode schnorrsig_odd)
        (λ _.
          Agree-bind 0 (odd_r-Agree f g c u sig64 msg pk32 k k' parity l h) refl
            λ s s' e. rw (← e.0, ← e.1.0) (logged s.0 s.1 e.1.1))
        (λ _.
          Agree-if (has_flag mode schnorrsig_infinity)
            (λ _.
              Agree-bind 0 (infinity_r-Agree f g c u sig64 msg pk32 k k' parity l h) refl
                λ s s' e. rw (← e.0, ← e.1.0) (logged s.0 s.1 e.1.1))
            (λ _. Agree-pure _ _ (refl, l)))
    where
      logged :
          (ok : Bool) (b : List ℕ)
          → length b ≡ 64
          → Agree 68
              (SameBytes 64)
              (do put_int (of_bool ok); put b; pure b)
              (do put_int (of_bool ok); put b; pure b)
      logged ok b lb = Agree-step 4 (Does-put_int (of_bool ok)) refl λ _ _.
          Agree-step 64 (Does-put b 64 (omega (arith, lb))) refl λ _ _. Agree-pure _ _ (refl, lb)

  negated_key-Agree :
      (k : f.Keypair) (k' : g.Keypair) (parity : ℕ)
      → c.SameKeypair k k'
      → Agree 0 (SameAnswer 32) (negated_key f k parity) (negated_key g k' parity)
  unfolding negated_key
  negated_key-Agree k k' parity h =
      Agree-bind 0 (even_key-Agree f g c u k k' parity h) refl λ d d' e.
        rw (← e.0, ← e.1.0.0)
          (Agree-if d.0
            (λ _.
              Agree-call (c.seckey_negate_key d.1 e.1.0.1 e.1.1)
                λ n n' en. rw (← en.0, ← en.1.0.0) (Agree-pure _ _ (refl, (refl, en.1.0.1))))
            (λ _. Agree-pure _ _ (refl, (refl, e.1.0.1))))

  pub make_cancel-Agree :
      (mode : ℕ) (k : f.Keypair) (k' : g.Keypair) (parity : ℕ)
      → c.SameKeypair k k'
      → Agree 4
          (λ a b. (a ≡ b) × IsTweak a)
          (make_cancel f mode k parity)
          (make_cancel g mode k' parity)
  unfolding make_cancel
  make_cancel-Agree mode k k' parity h =
      Agree-if (has_flag mode schnorrsig_cancel_tweak)
        (λ _. Agree-bind 0 (negated_key-Agree k k' parity h) refl λ n n' e.
          rw (← e.0, ← e.1.0)
            (Agree-step 4 (Does-put_int (of_bool n.0)) refl
              λ _ _. Agree-pure _ _ (refl, kept_if-IsTweak n.0 n.1 e.1.1)))
        (λ _. Agree-pure _ _ (refl, λ d e. ground (arith, e)))
