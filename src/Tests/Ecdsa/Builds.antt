-- ===== src/Tests/Ecdsa/Builds.antt =====
-- Two stand-ins for ECDSA over the builds of the field and the scalar module, which keep the contract:
-- signatures, keys and points are numbers, and infinity is 0. The second aborts on an illegal call.
use diffsecp.Prelude.{
  ℕ, ◌+◌, ◌%◌, ◌≢◌, ℤ, pos, List, ◌≡◌, refl, ap, sym, ◌∙◌, arith, Option, none, some, true, false,
  not, ◌&&◌, leb, ◌==◌, length, if◌then◌else◌,
}
use diffsecp.Tests.Bytes.{
  of_b32, to_bytes, length-to_bytes, bit, check, check_passes, b32, length-b32, is_nonzero-bit,
}
use diffsecp.Tests.Field.Builds as Field
use diffsecp.Tests.Field.Builds.{release, verify, Checked, to_value, of_value, to_normal}
use diffsecp.Tests.Scalar.Builds as Scalar
use diffsecp.Run.Agree.{Both}
use diffsecp.Run.Results.{Succeeds, SameBytes}
use diffsecp.Ecdsa.Api.{EcdsaApi, Nonce, default_nonce, rfc6979, custom}
use diffsecp.Ecdsa.Contract.{EcdsaContract, SameNonce, SameDer}

-- The signature that a nonce makes.
of_nonce : Option (ℤ × List ℕ) → Option (ℤ × ℕ)
of_nonce none = none
of_nonce (some n) = some (n.0, of_b32 0 n.1)

sign_with : List ℕ → List ℕ → Nonce → Option (ℤ × ℕ)
sign_with msg key (default_nonce extra) = some (pos 1, of_b32 0 msg)
sign_with msg key (rfc6979 extra) = some (pos 1, of_b32 0 msg)
sign_with msg key (custom n) = of_nonce (n msg key none 0)

abbrev SameNumber : ℕ → ℕ → Type 0
SameNumber x y = x ≡ y

of_nonce_same :
    (n n' : Option (ℤ × List ℕ))
    → Both (Succeeds (SameBytes 32)) n n'
    → Both (Succeeds SameNumber) (of_nonce n) (of_nonce n')
unfolding of_nonce
of_nonce_same n n' (a, b, e, e', r) =
    rw (e, e') (_, _, refl, refl, (r.0, λ ok. ap (of_b32 0) (r.1 ok).0))

sign_with_same :
    (msg key : List ℕ) (n n' : Nonce)
    → length msg ≡ 32
    → length key ≡ 32
    → SameNonce n n'
    → Both (Succeeds SameNumber) (sign_with msg key n) (sign_with msg key n')
unfolding sign_with
sign_with_same msg key (default_nonce d) (default_nonce d') l m h =
    (_, _, refl, refl, (refl, λ _. refl))
sign_with_same msg key (rfc6979 d) (rfc6979 d') l m h = (_, _, refl, refl, (refl, λ _. refl))
sign_with_same msg key (custom n) (custom n') l m h = of_nonce_same _ _ (h msg key none 0 l m)
sign_with_same msg key (default_nonce d) (rfc6979 d') l m h = absurd h
sign_with_same msg key (default_nonce d) (custom n') l m h = absurd h
sign_with_same msg key (rfc6979 d) (default_nonce d') l m h = absurd h
sign_with_same msg key (rfc6979 d) (custom n') l m h = absurd h
sign_with_same msg key (custom n) (default_nonce d') l m h = absurd h
sign_with_same msg key (custom n) (rfc6979 d') l m h = absurd h

der_of : ℕ → ℕ → ℤ × (List ℕ × ℕ)
der_of s size = (bit (leb 8 size), (to_bytes 8 s, 8))

der_of_same : (s size : ℕ) → SameDer size (der_of s size) (der_of s size)
unfolding der_of
der_of_same s size = record {
  same_ret = refl;
  same_len = refl;
  same_der = λ _. refl;
  length_der = λ _. length-to_bytes 8 s;
  small = omega arith;
  enough = λ h. is_nonzero-bit (leb 8 size) ∙ ground (arith, h);
}

pub release_build : EcdsaApi
unfolding release
release_build = record {
  field = release;
  scalar = Scalar.build false;
  Pubkey = ℕ;
  Signature = ℕ;
  Ge = ℕ;
  Gej = ℕ;
  const_order_as_fe = 5;
  pubkey_create = λ k. some (bit (not (of_b32 0 k == 0)), of_b32 0 k);
  pubkey_parse = λ b. some (bit (not (of_b32 0 b == 0)), of_b32 0 b);
  pubkey_serialize = λ k size compressed. some (to_bytes (if compressed then 33 else 65) k);
  sign = λ msg seckey n. sign_with msg seckey n;
  nonce_function_rfc6979 = λ msg key algo extra counter. some (pos 1, b32 msg);
  normalize = λ s. some (pos 0, s);
  is_high = λ s. some (bit (s % 2 == 1));
  serialize_der = λ s size. some (der_of s size);
  serialize_compact = λ s. some (to_bytes 64 s);
  parse_compact = λ b. some (bit (not (of_b32 0 b == 0)), of_b32 0 b);
  parse_der = λ b. some (bit (leb 8 (length b)), of_b32 0 b);
  parse_der_lax = λ b. some (bit (leb 8 (length b)), of_b32 0 b);
  verify = λ s msg k. some (bit (s == of_b32 0 msg + k));
  ge_set_xo_var = λ x odd. some (bit (x % 2 == odd), x + 1);
  gej_set_infinity = some 0;
  gej_set_ge = λ p. some p;
  ecmult = λ p a b. some p;
  gej_is_infinity = λ p. some (bit (p == 0));
  ge_set_gej = λ p. some p;
  pubkey_save = λ p. some p;
}

pub verify_build : EcdsaApi
unfolding verify
verify_build = record {
  field = verify;
  scalar = Scalar.build true;
  Pubkey = ℕ;
  Signature = ℕ;
  Ge = ℕ;
  Gej = ℕ;
  const_order_as_fe = record { val = 5; mag = 1 };
  pubkey_create = λ k. check (length k == 32) (bit (not (of_b32 0 k == 0)), of_b32 0 k);
  pubkey_parse = λ b. some (bit (not (of_b32 0 b == 0)), of_b32 0 b);
  pubkey_serialize = λ k size compressed.
      check (leb (if compressed then 33 else 65) size) (to_bytes (if compressed then 33 else 65) k);
  sign = λ msg seckey n. if length msg == 32 then sign_with msg seckey n else none;
  nonce_function_rfc6979 = λ msg key algo extra counter. check (length msg == 32) (pos 1, b32 msg);
  normalize = λ s. some (pos 0, s);
  is_high = λ s. some (bit (s % 2 == 1));
  serialize_der = λ s size. some (der_of s size);
  serialize_compact = λ s. some (to_bytes 64 s);
  parse_compact = λ b. check (length b == 64) (bit (not (of_b32 0 b == 0)), of_b32 0 b);
  parse_der = λ b. some (bit (leb 8 (length b)), of_b32 0 b);
  parse_der_lax = λ b. some (bit (leb 8 (length b)), of_b32 0 b);
  verify = λ s msg k. check (length msg == 32) (bit (s == of_b32 0 msg + k));
  ge_set_xo_var = λ x odd. check (leb odd 1 && leb x.mag 1) (bit (x.val % 2 == odd), x.val + 1);
  gej_set_infinity = some 0;
  gej_set_ge = λ p. check (not (p == 0)) p;
  ecmult = λ p a b. some p;
  gej_is_infinity = λ p. some (bit (p == 0));
  ge_set_gej = λ p. check (not (p == 0)) p;
  pubkey_save = λ p. check (not (p == 0)) p;
}

pub builds_agree : EcdsaContract release_build verify_build
unfolding release_build verify_build release verify
builds_agree = record {
  field = Field.builds_agree;
  scalar = Scalar.builds_agree;
  SamePubkey = λ k k'. k ≡ k';
  SameSignature = λ s s'. s ≡ s';
  SameGe = λ p p'. (p ≡ p') × (p ≢ 0);
  SameGej = λ p p'. p ≡ p';
  Finite = λ p p'. (p ≡ p') × (p ≢ 0);
  const_order_as_fe = to_value (record { same = refl; small = omega arith });
  set_b32_limit = λ b l.
      (_, _, refl, refl, (refl, λ _. to_normal (record { same = refl; small = omega arith })));
  pubkey_create = λ k l. (_, _, refl, check_passes _ _ (ground (arith, l)), (refl, λ _. refl));
  pubkey_parse = λ b. (_, _, refl, refl, (refl, λ _. refl));
  pubkey_serialize = λ k k' size compressed l h.
      rw h (_, refl, check_passes _ _ (ground (arith, l)), length-to_bytes _ k');
  sign = λ msg seckey n n' l m h.
      let e : (length msg == 32) ≡ true = ground (arith, l) in
      rw e (sign_with_same msg seckey n n' l m h);
  nonce_function_rfc6979 = λ msg key algo extra counter l m la le.
      (_, _, refl, check_passes _ _ (ground (arith, l)), (refl, λ _. (refl, length-b32 msg)));
  normalize = λ s s' h. (_, _, refl, refl, (refl, h));
  is_high = λ s s' h. rw h (_, refl, refl, tt);
  serialize_der = λ s s' size h. rw h (_, _, refl, refl, der_of_same s' size);
  serialize_compact = λ s s' h. rw h (_, refl, refl, length-to_bytes 64 s');
  parse_compact = λ b l. (_, _, refl, check_passes _ _ (ground (arith, l)), (refl, λ _. refl));
  parse_der = λ b. (_, _, refl, refl, (refl, λ _. refl));
  parse_der_lax = λ b. (_, _, refl, refl, (refl, λ _. refl));
  verify = λ s s' msg k k' l h e. rw (h, e) (_, refl, check_passes _ _ (ground (arith, l)), tt);
  ge_set_xo_var = λ a a' odd l h. rw (of_value h).same (
    _,
    _,
    refl,
    check_passes _ _ (ground (arith, l, (of_value h).small)),
    (refl, λ _. (refl, λ e. ground (arith, e))),
  );
  gej_set_infinity = (_, _, refl, refl, refl);
  gej_set_ge = λ p p' h. (_, _, refl, check_passes _ _ (nonzero p p' h), h.0);
  ecmult = λ p p' a b a' b' h ha hb. (_, _, refl, refl, h);
  gej_is_infinity = λ p p' h. rw (← h) (
    _,
    refl,
    refl,
    λ e. (
      refl,
      λ z. let q : (p == 0) ≡ false = sym (is_nonzero-bit (p == 0)) ∙ e in ground (arith, q, z),
    ),
  );
  ge_set_gej = λ p p' h. (_, _, refl, check_passes _ _ (nonzero p p' h), h);
  pubkey_save = λ p p' h. (_, _, refl, check_passes _ _ (nonzero p p' h), h.0);
}
  where
    nonzero : (p p' : ℕ) → (p ≡ p') × (p ≢ 0) → not (p' == 0) ≡ true
    nonzero p p' h = ground (arith, h)
