-- ===== src/Tests/Schnorrsig/Builds.antt =====
-- A stand-in for BIP340, which keeps the contract: key pairs and keys are 32 bytes, a signature the
-- message and the nonce. With `strict`, an illegal call aborts.
use diffsecp.Prelude.{
  ℕ, ◌+◌, ◌%◌, ℤ, pos, List, ◌≡◌, refl, ap, sym, arith, Option, none, some, Bool, true, false, not,
  ◌||◌, leb, ◌==◌, length,
}
use diffsecp.Tests.Bytes.{
  of_b32, to_bytes, length-to_bytes, bit, check, check_passes, b32, length-b32,
}
use diffsecp.Run.Agree.{Both}
use diffsecp.Run.Results.{Succeeds, SameBytes}
use diffsecp.Schnorrsig.Api.{SchnorrsigApi, ExtraParams, NonceFunction}
use diffsecp.Schnorrsig.Contract.{SchnorrsigContract, FailsAlike, SameExtra, SameNoncefp}

-- The signature of a nonce.
signature : List ℕ → Option (ℤ × List ℕ) → Option (ℤ × List ℕ)
signature msg none = none
signature msg (some n) = some (n.0, to_bytes 64 (of_b32 0 msg + of_b32 0 n.1))

by_nonce : List ℕ → List ℕ → Option NonceFunction → List ℕ → Option (ℤ × List ℕ)
by_nonce msg key none ndata = some (pos 1, ndata)
by_nonce msg key (some n) ndata = n msg (b32 key) (b32 key) ndata ndata

sign_with : List ℕ → List ℕ → Option ExtraParams → Option (ℤ × List ℕ)
sign_with msg key none = signature msg (some (pos 1, key))
sign_with msg key (some e) = signature msg (by_nonce msg key e.noncefp e.ndata)

signature_same :
    (msg : List ℕ) (n n' : Option (ℤ × List ℕ))
    → Both (Succeeds (SameBytes 32)) n n'
    → Both (Succeeds (SameBytes 64)) (signature msg n) (signature msg n')
unfolding signature
signature_same msg n n' (a, b, e, e', r) =
    rw (e, e')
      (
        _,
        _,
        refl,
        refl,
        (
          r.0,
          λ ok.
              (ap (λ x. to_bytes 64 (of_b32 0 msg + of_b32 0 x)) (r.1 ok).0, length-to_bytes 64 _),
        ),
      )

key_same :
    (msg k : List ℕ)
    → Both
        (Succeeds (SameBytes 64))
        (signature msg (some (pos 1, k)))
        (signature msg (some (pos 1, k)))
unfolding signature
key_same msg k = (_, _, refl, refl, (refl, λ _. (refl, length-to_bytes 64 _)))

by_nonce_same :
    (msg k : List ℕ) (e e' : ExtraParams)
    → SameExtra (some e) (some e')
    → Both
        (Succeeds (SameBytes 32))
        (by_nonce msg k e.noncefp e.ndata)
        (by_nonce msg k e'.noncefp e'.ndata)
unfolding by_nonce
by_nonce_same msg k e e' h = rw (← h.1.0) (cases e.noncefp e'.noncefp h.0)
  where
    cases :
        (n n' : Option NonceFunction)
        → SameNoncefp n n'
        → Both (Succeeds (SameBytes 32)) (by_nonce msg k n e.ndata) (by_nonce msg k n' e.ndata)
    cases none none r = (_, _, refl, refl, (refl, λ _. (refl, h.1.1)))
    cases (some n) (some n') r =
        r msg (b32 k) (b32 k) e.ndata e.ndata (length-b32 k) (length-b32 k) h.1.1
    cases none (some n') r = absurd r
    cases (some n) none r = absurd r

sign_with_same :
    (msg k : List ℕ) (e e' : Option ExtraParams)
    → SameExtra e e'
    → Both (Succeeds (SameBytes 64)) (sign_with msg k e) (sign_with msg k e')
unfolding sign_with
sign_with_same msg k none none h = key_same msg k
sign_with_same msg k (some e) (some e') h = signature_same msg _ _ (by_nonce_same msg k e e' h)
sign_with_same msg k none (some e') h = absurd h
sign_with_same msg k (some e) none h = absurd h

pub build : Bool → SchnorrsigApi
unfolding check
build strict = record {
  Keypair = List ℕ;
  Xonly = List ℕ;
  Pubkey = List ℕ;
  keypair_create = λ k. some (bit (not (of_b32 0 k == 0)), k);
  keypair_sec = λ k. some (pos 1, b32 k);
  keypair_xonly_pub = λ k. some (of_b32 0 k % 2, k);
  seckey_negate = λ k. some (pos 1, b32 k);
  seckey_tweak_add = λ k t. some (pos 1, to_bytes 32 (of_b32 0 k + of_b32 0 t));
  seckey_tweak_mul = λ k t. some (pos 1, b32 t);
  tagged_sha256 = λ tag msg. some (pos 1, b32 msg);
  xonly_parse = λ b. some (bit (not (of_b32 0 b == 0)), b);
  xonly_serialize = λ x. some (b32 x);
  xonly_tweak_add =
      λ x t. some (bit (not (of_b32 0 t == 0)), to_bytes 32 (of_b32 0 x + of_b32 0 t));
  xonly_tweak_add_check = λ b parity x t.
      check (not strict || leb parity 1) (bit (of_b32 0 b == of_b32 0 x + of_b32 0 t));
  xonly_from_pubkey = λ p. some (pos 1, (of_b32 0 p % 2, p));
  sign32 = λ msg k aux. some (pos 1, to_bytes 64 (of_b32 0 msg + of_b32 0 k));
  sign_custom = λ msg k e. sign_with msg k e;
  verify = λ sig msg x.
      check (not strict || length sig == 64) (bit (of_b32 0 sig == of_b32 0 msg + of_b32 0 x));
  nonce_function_bip340 = λ msg key pk algo. some (pos 1, b32 msg);
}

pub builds_agree : SchnorrsigContract (build false) (build true)
unfolding build check
builds_agree = record {
  SameKeypair = λ k k'. k ≡ k';
  SameXonly = λ x x'. x ≡ x';
  SamePubkey = λ p p'. p ≡ p';
  keypair_create = λ k l. (_, _, refl, refl, (refl, λ _. refl));
  IsKey = λ k. Unit {0};
  keypair_sec = λ k k' h. (_, _, refl, refl, (refl, ((ap b32 h, length-b32 k), tt)));
  keypair_xonly_pub = λ k k' h. (_, _, refl, refl, (ap (λ k. of_b32 0 k % 2) h, h));
  seckey_negate = λ k l. (_, _, refl, refl, (refl, λ _. (refl, length-b32 k)));
  seckey_negate_key = λ k l h. (_, _, refl, refl, (refl, ((refl, length-b32 k), tt)));
  seckey_tweak_mul = λ k t l m. (_, _, refl, refl, (refl, λ _. (refl, length-b32 t)));
  seckey_tweak_add = λ k t l m. (_, _, refl, refl, (refl, λ _. (refl, length-to_bytes 32 _)));
  tagged_sha256 = λ tag msg. (_, _, refl, refl, (refl, λ _. (refl, length-b32 msg)));
  xonly_parse = λ b l. (_, _, refl, refl, (refl, λ _. refl));
  xonly_serialize = λ x y h. (_, refl, ap (λ x. some (b32 x)) (sym h), length-b32 x);
  xonly_tweak_add = λ t x y l h.
      (_, _, refl, refl, (refl, λ _. ap (λ x. to_bytes 32 (of_b32 0 x + of_b32 0 t)) h));
  xonly_tweak_add_check =
      λ b t parity x y l m p h. rw h (_, refl, check_passes _ _ (ground arith), tt);
  xonly_from_pubkey =
      λ p q h. (_, _, refl, refl, (refl, λ _. (omega arith, (ap (λ k. of_b32 0 k % 2) h, h))));
  sign32 = λ msg k k' aux l m h. (
    _,
    _,
    refl,
    refl,
    (refl, λ _. (ap (λ k. to_bytes 64 (of_b32 0 msg + of_b32 0 k)) h, length-to_bytes 64 _)),
  );
  sign_custom = λ msg k k' e e' h r. rw (← h) (sign_with_same msg k e e' r);
  verify = λ sig msg x y l h. rw h (_, refl, check_passes _ _ (ground (arith, l)), tt);
  nonce_function_bip340 =
      λ msg key pk algo l m. (_, _, refl, refl, (refl, λ _. (refl, length-b32 msg)));
}

pub builds_fail_alike : FailsAlike (build false) (build true) builds_agree
unfolding build builds_agree
builds_fail_alike = record {
  seckey_tweak_mul = λ k t l m. (_, _, refl, refl, λ _. (refl, length-b32 t));
  sign32 = λ msg k k' aux l m h. (
    _,
    _,
    refl,
    refl,
    λ _. (ap (λ k. to_bytes 64 (of_b32 0 msg + of_b32 0 k)) h, length-to_bytes 64 _),
  );
}
