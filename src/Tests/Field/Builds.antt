-- ===== src/Tests/Field/Builds.antt =====
-- Two concrete builds of a field module, and that they meet the contract.
use diffsecp.Prelude.{ℕ, ◌+◌, ◌-◌, ◌*◌, ◌/◌, ◌%◌, ◌^◌, ◌≤◌, ℤ, Option, some}
use diffsecp.Prelude.{◌≡◌, refl, ap, sym, arith, ltb, leb, ◌==◌, if◌then◌else◌, ◌&&◌, Bool, true}
use diffsecp.Tests.Bytes.{of_b32, to_bytes, length-to_bytes, power, bit, check}
use diffsecp.Run.Agree.{Both, Shared, Any}
use diffsecp.Field.Api.{FieldApi}
use diffsecp.Field.Contract.{FieldContract}

-- The field's prime.
abbrev prime : ℕ
prime = 2 ^ 256 - 2 ^ 32 - 977

pub root : ℕ → ℕ
root x = power prime 256 x ((prime + 1) / 4)

pub is_square : ℕ → ℤ
is_square x = bit (root x * root x % prime == x)

unfoldable pub release : FieldApi
release = record {
  Fe = ℕ;
  Storage = ℕ;
  set_int = λ n. some n;
  set_b32_mod = λ b. some (of_b32 0 b % prime);
  set_b32_limit = λ b. some (bit (ltb (of_b32 0 b) prime), of_b32 0 b);
  add = λ r a. some ((r + a) % prime);
  add_int = λ r k. some ((r + k) % prime);
  mul = λ a b. some (a * b % prime);
  sqr = λ a. some (a * a % prime);
  negate_unchecked = λ a k. some ((prime - a) % prime);
  mul_int_unchecked = λ r k. some (r * k % prime);
  half = λ r. some (r * ((prime + 1) / 2) % prime);
  normalize = λ r. some r;
  normalize_weak = λ r. some r;
  normalize_var = λ r. some r;
  inv = λ a. some (power prime 256 a (prime - 2));
  inv_var = λ a. some (power prime 256 a (prime - 2));
  sqrt = λ a. some (is_square a, root a);
  cmov = λ r a flag. some (if flag == 1 then a else r);
  to_storage = λ a. some a;
  from_storage = λ s. some s;
  get_b32 = λ a. some (to_bytes 32 a);
  normalizes_to_zero = λ a. some (bit (a == 0));
  normalizes_to_zero_var = λ a. some (bit (a == 0));
  is_square_var = λ a. some (is_square a);
  equal = λ a b. some (bit (a == b));
  is_zero = λ a. some (bit (a == 0));
  is_odd = λ a. some (bit (a % 2 == 1));
  cmp_var = λ a b. some (bit (ltb b a));
}

pub record Checked : Type 0 where
  pub val : ℕ
  pub mag : ℕ

abbrev checked : Bool → ℕ → ℕ → Option Checked
checked ok m v = check ok (record { val = v; mag = m })

unfoldable pub verify : FieldApi
unfolding check
verify = record {
  Fe = Checked;
  Storage = ℕ;
  set_int = λ n. checked (ltb n 0x8000) (if n == 0 then 0 else 1) n;
  set_b32_mod = λ b. checked true 1 (of_b32 0 b % prime);
  set_b32_limit = λ b. some (bit (ltb (of_b32 0 b) prime), record { val = of_b32 0 b; mag = 1 });
  add = λ r a. checked (leb (r.mag + a.mag) 32) (r.mag + a.mag) ((r.val + a.val) % prime);
  add_int = λ r k. checked (leb r.mag 31 && ltb k 0x8000) (r.mag + 1) ((r.val + k) % prime);
  mul = λ a b. checked (leb a.mag 8 && leb b.mag 8) 1 (a.val * b.val % prime);
  sqr = λ a. checked (leb a.mag 8) 1 (a.val * a.val % prime);
  negate_unchecked = λ a k. checked (leb a.mag k && leb k 31) (k + 1) ((prime - a.val) % prime);
  mul_int_unchecked =
      λ r k. checked (leb k 32 && leb (k * r.mag) 32) (r.mag * k) (r.val * k % prime);
  half = λ r. checked (leb r.mag 31) (r.mag / 2 + 1) (r.val * ((prime + 1) / 2) % prime);
  normalize = λ r. checked (leb r.mag 32) 1 r.val;
  normalize_weak = λ r. checked (leb r.mag 32) 1 r.val;
  normalize_var = λ r. checked (leb r.mag 32) 1 r.val;
  inv =
      λ a. checked (leb a.mag 32) (if a.mag == 0 then 0 else 1) (power prime 256 a.val (prime - 2));
  inv_var =
      λ a. checked (leb a.mag 32) (if a.mag == 0 then 0 else 1) (power prime 256 a.val (prime - 2));
  sqrt = λ a. check (leb a.mag 8) (is_square a.val, record { val = root a.val; mag = 1 });
  cmov = λ r a flag.
      checked (leb flag 1) (if ltb r.mag a.mag then a.mag else r.mag)
        (if flag == 1 then a.val else r.val);
  to_storage = λ a. check (leb a.mag 1) a.val;
  from_storage = λ s. checked true 1 s;
  get_b32 = λ a. check (leb a.mag 1) (to_bytes 32 a.val);
  normalizes_to_zero = λ a. check (leb a.mag 32) (bit (a.val == 0));
  normalizes_to_zero_var = λ a. check (leb a.mag 32) (bit (a.val == 0));
  is_square_var = λ a. check (leb a.mag 32) (is_square a.val);
  equal = λ a b. check (leb a.mag 1 && leb b.mag 31) (bit (a.val == b.val));
  is_zero = λ a. check (leb a.mag 1) (bit (a.val == 0));
  is_odd = λ a. check (leb a.mag 1) (bit (a.val % 2 == 1));
  cmp_var = λ a b. check (leb a.mag 1 && leb b.mag 1) (bit (ltb b.val a.val));
}

-- The checked element holds the same value, and its magnitude is at most `m`.
pub record Within (m x : ℕ) (y : Checked) : Type 0 where
  pub same : y.val ≡ x
  pub small : y.mag ≤ m

-- A check that passes, on a call that computes an element, and on one that answers.
pass :
    {m x : ℕ} (ok : Bool) (k v : ℕ)
    → ok ≡ true
    → v ≡ x
    → k ≤ m
    → Both (Within m) (some x) (checked ok k v)
unfolding check
pass {x} ok k v e s l = (x, record { val = v; mag = k }, refl, rw e, record { same = s; small = l })

answer : {A : Type 0} (ok : Bool) (a b : A) → ok ≡ true → b ≡ a → Shared Any (some a) (check ok b)
unfolding check
answer ok a b e s = (a, refl, rw (e, s), tt)

pub builds_agree : FieldContract release verify
unfolding release verify
builds_agree = record {
  Value = Within;
  Normal = Within 1;
  Stored = λ s s'. s' ≡ s;
  normal_value = λ x y h. h;
  set_int_zero = pass true 0 0 refl refl (omega arith);
  set_b32_mod = λ b h. pass true 1 _ refl refl (omega arith);
  set_b32_limit =
      λ b h. (_, _, refl, refl, (refl, λ _. record { same = refl; small = omega arith }));
  add = λ m n r a r' a' b h k. pass _ _ _ (ground arith) (ground arith) (ground arith);
  add_int = λ m k r r' b l h. pass _ _ _ (ground arith) (ground arith) (ground arith);
  mul = λ m n a b a' b' l l' h h'. pass _ _ _ (ground arith) (ground arith) (ground arith);
  sqr = λ m a a' b h. pass _ _ _ (ground arith) (ground arith) (ground arith);
  negate_unchecked = λ m k a a' l l' h. pass _ _ _ (ground arith) (ground arith) (ground arith);
  mul_int_unchecked = λ m k r r' l l' h.
      let p : k * r'.mag ≤ k * m = grind arith in
      pass _ _ _ (ground arith) (ground arith) (grind arith);
  half = λ m r r' b h. pass _ _ _ (ground arith) (ground arith) (ground arith);
  normalize = λ m r r' b h. pass _ _ _ (ground arith) (ground arith) (ground arith);
  normalize_weak = λ m r r' b h. pass _ _ _ (ground arith) (ground arith) (ground arith);
  normalize_var = λ m r r' b h. pass _ _ _ (ground arith) (ground arith) (ground arith);
  inv = λ m a a' b h. pass _ _ _ (ground arith) (ground arith) (ground arith);
  inv_var = λ m a a' b h. pass _ _ _ (ground arith) (ground arith) (ground arith);
  sqrt = λ m a a' b h. (
    (is_square a, root a),
    (is_square a'.val, record { val = root a'.val; mag = 1 }),
    refl,
    (unfold check in ground arith),
    (ap is_square (sym h.same), record { same = ap root h.same; small = omega arith }),
  );
  cmov =
      λ m n k flag r a r' a' l l' b q h h'. pass _ _ _ (ground arith) (ground arith) (ground arith);
  to_storage = λ a a' h. (a, a'.val, refl, (unfold check in ground arith), h.same);
  from_storage = λ s s' e. pass true 1 s' refl e (omega arith);
  get_b32 = λ a a' h. (
    to_bytes 32 a,
    refl,
    (unfold check in ground (arith, ap (to_bytes 32) h.same)),
    length-to_bytes 32 a,
  );
  normalizes_to_zero = λ m a a' b h. answer _ _ _ (ground arith) (ground arith);
  normalizes_to_zero_var = λ m a a' b h. answer _ _ _ (ground arith) (ground arith);
  is_square_var = λ m a a' b h. answer _ _ _ (ground arith) (ap is_square h.same);
  equal = λ m n a b a' b' l l' h h'. answer _ _ _ (ground arith) (ground arith);
  is_zero = λ a a' h. answer _ _ _ (ground arith) (ground arith);
  is_odd = λ a a' h. answer _ _ _ (ground arith) (ground arith);
  cmp_var = λ a b a' b' h h'. answer _ _ _ (ground arith) (ground arith);
}

-- The relation of the builds, for modules that build on them.
pub to_value :
    {m x : ℕ} {y : Checked} → Within m x y → unfold release verify in builds_agree.Value m x y
unfolding builds_agree
to_value h = h

pub of_value :
    {m x : ℕ} {y : Checked} → (unfold release verify in builds_agree.Value m x y) → Within m x y
unfolding builds_agree
of_value h = h

pub to_normal :
    {x : ℕ} {y : Checked} → Within 1 x y → unfold release verify in builds_agree.Normal x y
unfolding builds_agree
to_normal h = h
