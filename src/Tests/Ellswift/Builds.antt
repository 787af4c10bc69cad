-- ===== src/Tests/Ellswift/Builds.antt =====
-- Two stand-ins for ElligatorSwift over the builds of the field module, which keep the contract: a
-- key is the number of its encoding, and odd numbers stand for the curve's. The second aborts on an
-- illegal call.
use diffsecp.Prelude.{
  ℕ, suc, ◌%◌, ◌≢◌, ℤ, pos, List, ◌≡◌, refl, ap, sym, ◌∙◌, arith, Option, none, some, true, false,
  not, ◌&&◌, leb, ltb, ◌==◌, length, if◌then◌else◌,
}
use diffsecp.Tests.Bytes.{
  of_b32, to_bytes, length-to_bytes, bit, check, check_passes, b32, length-b32, is_nonzero-bit,
}
use diffsecp.Tests.Field.Builds as Field
use diffsecp.Tests.Field.Builds.{release, verify, Checked, to_value, of_value}
use diffsecp.Run.Agree.{Both}
use diffsecp.Run.Results.{Succeeds, SameBytes}
use diffsecp.Ellswift.Api.{EllswiftApi, HashFunction}
use diffsecp.Ellswift.Contract.{EllswiftContract, SameHash}

abbrev xdh : List ℕ → List ℕ → List ℕ → HashFunction → List ℕ → Option (ℤ × List ℕ)
xdh a b seckey h extra = h (b32 seckey) a b extra

abbrev hash : HashFunction
hash x a b extra = some (pos 1, b32 x)

xdh_same :
    (a b seckey extra : List ℕ) (h h' : HashFunction)
    → length a ≡ 64
    → length b ≡ 64
    → SameHash extra h h'
    → Both (Succeeds (SameBytes 32)) (xdh a b seckey h extra) (xdh a b seckey h' extra)
xdh_same a b seckey extra h h' la lb same =
    let (r, r', e, e', q) = same (b32 seckey) a b (length-b32 seckey) la lb in
    (r, r', e, e', (q.0, λ _. q.1))

pub release_build : EllswiftApi
unfolding release
release_build = record {
  field = release;
  Pubkey = ℕ;
  Ge = ℕ;
  x = λ p. p;
  b = 7;
  pubkey_load = λ k. some (pos 1, suc k);
  pubkey_serialize = λ k size compressed. some (to_bytes (if compressed then 33 else 65) k);
  x_on_curve_var = λ a. some (bit (a % 2 == 1));
  xswiftec_inv_var = λ a u c. some (pos 1, u);
  ellswift_decode = λ ell. some (pos 1, of_b32 0 ell);
  ellswift_encode = λ k rnd. some (pos 1, to_bytes 64 k);
  ellswift_create =
      λ seckey aux. some (bit (not (of_b32 0 seckey == 0)), to_bytes 64 (of_b32 0 seckey));
  ellswift_xdh = λ a b seckey party h extra. xdh a b seckey h extra;
  xdh_hash_function_prefix = hash;
  xdh_hash_function_bip324 = hash;
}

pub verify_build : EllswiftApi
unfolding verify
verify_build = record {
  field = verify;
  Pubkey = ℕ;
  Ge = Checked;
  x = λ p. p;
  b = 7;
  pubkey_load = λ k. some (pos 1, record { val = suc k; mag = 1 });
  pubkey_serialize = λ k size compressed.
      check (leb (if compressed then 33 else 65) size) (to_bytes (if compressed then 33 else 65) k);
  x_on_curve_var = λ a. check (leb a.mag 1) (bit (a.val % 2 == 1));
  xswiftec_inv_var = λ a u c. check (a.val % 2 == 1 && (not (u.val == 0) && ltb c 8)) (pos 1, u);
  ellswift_decode = λ ell. some (pos 1, of_b32 0 ell);
  ellswift_encode = λ k rnd. some (pos 1, to_bytes 64 k);
  ellswift_create =
      λ seckey aux. some (bit (not (of_b32 0 seckey == 0)), to_bytes 64 (of_b32 0 seckey));
  ellswift_xdh = λ a b seckey party h extra. if leb party 1 then xdh a b seckey h extra else none;
  xdh_hash_function_prefix = hash;
  xdh_hash_function_bip324 = hash;
}

pub builds_agree : EllswiftContract release_build verify_build
unfolding release_build verify_build release verify
builds_agree = record {
  field = Field.builds_agree;
  SamePubkey = λ k k'. k ≡ k';
  Nonzero = λ x y. x ≢ 0;
  OnCurve = λ x y. x % 2 ≡ 1;
  same_b = refl;
  small_b = omega arith;
  set_int_one = (
    _,
    _,
    refl,
    refl,
    (to_value (record { same = refl; small = omega arith }), λ e. ground (arith, e)),
  );
  normalizes_to_zero_var = λ a a' h. rw (of_value h).same (
    _,
    refl,
    check_passes _ _ (ground (arith, (of_value h).small)),
    λ e z. let q : (a == 0) ≡ false = sym (is_nonzero-bit (a == 0)) ∙ e in ground (arith, q, z),
  );
  pubkey_load = λ k k' h. (
    _,
    _,
    refl,
    refl,
    (
      refl,
      (to_value (record { same = ap suc (sym h); small = omega arith }), λ e. ground (arith, e)),
    ),
  );
  pubkey_serialize = λ k k' size compressed l h.
      rw h (_, refl, check_passes _ _ (ground (arith, l)), length-to_bytes _ k');
  x_on_curve_var = λ a a' h. rw (of_value h).same (
    _,
    refl,
    check_passes _ _ (ground (arith, (of_value h).small)),
    λ e. let q : (a % 2 == 1) ≡ true = sym (is_nonzero-bit (a % 2 == 1)) ∙ e in ground (arith, q),
  );
  xswiftec_inv_var = λ a u a' u' k h on hu nu l. (
    _,
    _,
    refl,
    check_passes _ _ (ground (arith, (of_value h).same, (of_value hu).same, on, nu, l)),
    (refl, λ _. hu),
  );
  ellswift_decode = λ ell l. (_, _, refl, refl, (refl, refl));
  ellswift_encode =
      λ k k' rnd h l. (_, _, refl, refl, (refl, (ap (to_bytes 64) h, length-to_bytes 64 k)));
  ellswift_create = λ seckey aux l m. (_, _, refl, refl, (refl, λ _. (refl, length-to_bytes 64 _)));
  ellswift_xdh = λ a b seckey party h h' extra la lb lk le same.
      let e : leb party 1 ≡ true = ground (arith, le) in
      rw e (xdh_same a b seckey extra h h' la lb same);
  xdh_hash_function_prefix =
      λ extra l x a b lx la lb. (_, _, refl, refl, (refl, (refl, length-b32 x)));
  xdh_hash_function_bip324 =
      λ extra x a b lx la lb. (_, _, refl, refl, (refl, (refl, length-b32 x)));
}
