-- ===== src/Tests/Scalar/Builds.antt =====
-- A concrete scalar module, and that its builds with and without checks meet the contract.
use diffsecp.Prelude.{
  ℕ, ◌+◌, ◌-◌, ◌*◌, ◌/◌, ◌%◌, ◌^◌, negsuc, pos, some, refl, ◌≡◌, arith, ltb, leb, ◌==◌,
  if◌then◌else◌, ◌&&◌, ◌||◌, not, Bool, true, false,
}
use diffsecp.Tests.Bytes.{of_b32, to_bytes, length-to_bytes, power, bit, check, check_passes}
use diffsecp.Run.Agree.{Both}
use diffsecp.Scalar.Api.{ScalarApi}
use diffsecp.Scalar.Contract.{ScalarContract}

-- The order of the group.
abbrev order : ℕ
order = 2 ^ 256 - 432420386565659656852420866394968145599

-- With `verify`, a call out of range aborts.
pub build : Bool → ScalarApi
unfolding check
build verify = record {
  Sc = ℕ;
  set_int = λ n. some n;
  set_b32 = λ b. some (bit (not (ltb (of_b32 0 b) order)), of_b32 0 b % order);
  set_b32_seckey =
      λ b. some (bit (ltb (of_b32 0 b) order && not (of_b32 0 b == 0)), of_b32 0 b % order);
  add = λ a b. some (bit (not (ltb (a + b) order)), (a + b) % order);
  mul = λ a b. some (a * b % order);
  negate = λ a. some ((order - a) % order);
  half = λ a. some (a * ((order + 1) / 2) % order);
  inverse = λ a. some (power order 256 a (order - 2));
  inverse_var = λ a. some (power order 256 a (order - 2));
  cond_negate = λ a flag.
      check (not verify || leb flag 1)
        (if flag == 1 then (negsuc 0, (order - a) % order) else (pos 1, a));
  cmov = λ r a flag. check (not verify || leb flag 1) (if flag == 1 then a else r);
  split_128 = λ a. some (a % 2 ^ 128, a / 2 ^ 128);
  split_lambda = λ a. some (a, 0);
  mul_shift_var = λ a b shift.
      check (not verify || leb 256 shift && leb shift 512) ((a * b / 2 ^ (shift - 1) + 1) / 2);
  get_b32 = λ a. some (to_bytes 32 a);
  is_zero = λ a. some (bit (a == 0));
  is_one = λ a. some (bit (a == 1));
  is_even = λ a. some (bit (a % 2 == 0));
  is_high = λ a. some (bit (ltb (order / 2) a));
  eq = λ a b. some (bit (a == b));
  get_bits_var = λ a offset count.
      check (not verify || leb 1 count && (leb count 32 && leb (offset + count) 256))
        ((a / 2 ^ offset) % 2 ^ count);
  get_bits_limb32 = λ a offset count.
      check
        (not verify
          || leb 1 count
            && (leb count 32
                && (leb (offset + count) 256 && ((offset + count - 1) / 32 == offset / 32))))
        ((a / 2 ^ offset) % 2 ^ count);
}

pub builds_agree : ScalarContract (build false) (build true)
unfolding build check
builds_agree = record {
  Value = λ x y. x ≡ y;
  set_int_zero = (0, 0, refl, refl, refl);
  set_b32 = λ b l. (_, _, refl, refl, (refl, refl));
  set_b32_seckey = λ b l. (_, _, refl, refl, (refl, refl));
  add = λ a b a' b' h k. rw (h, k) (_, _, refl, refl, (refl, refl));
  mul = λ a b a' b' h k. rw (h, k) (_, _, refl, refl, refl);
  negate = λ a a' h. rw h (_, _, refl, refl, refl);
  half = λ a a' h. rw h (_, _, refl, refl, refl);
  inverse = λ a a' h. rw h (_, _, refl, refl, refl);
  inverse_var = λ a a' h. rw h (_, _, refl, refl, refl);
  cond_negate = λ flag a a' l h. rw h (_, _, refl, check_passes _ _ (ground arith), (refl, refl));
  cmov = λ flag r a r' a' l h k. rw (h, k) (_, _, refl, check_passes _ _ (ground arith), refl);
  split_128 = λ a a' h. rw h (_, _, refl, refl, (refl, refl));
  split_lambda = λ a a' h. rw h (_, _, refl, refl, (refl, refl));
  mul_shift_var =
      λ s a b a' b' l m h k. rw (h, k) (_, _, refl, check_passes _ _ (ground arith), refl);
  get_b32 = λ a a' h. rw h (_, refl, refl, length-to_bytes 32 a');
  is_zero = λ a a' h. rw h (_, refl, refl, tt);
  is_one = λ a a' h. rw h (_, refl, refl, tt);
  is_even = λ a a' h. rw h (_, refl, refl, tt);
  is_high = λ a a' h. rw h (_, refl, refl, tt);
  eq = λ a b a' b' h k. rw (h, k) (_, refl, refl, tt);
  get_bits_var = λ o c a a' l m n h. rw h (_, refl, check_passes _ _ (ground arith), tt);
  get_bits_limb32 = λ o c a a' l m n e h. rw h (_, refl, check_passes _ _ (ground arith), tt);
}

pub set_int_same :
    (k : ℕ) → Both builds_agree.Value ((build false).set_int k) ((build true).set_int k)
unfolding build builds_agree
set_int_same k = (k, k, refl, refl, refl)
