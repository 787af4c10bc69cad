-- ===== src/Tests/Group/Builds.antt =====
-- Two stand-ins for the group module over the builds of the field and the scalar module, which keep
-- the contract: points are numbers, and infinity is 0. The second aborts on an illegal call.
use diffsecp.Prelude.{
  ℕ, ◌+◌, ◌%◌, ◌≢◌, ◌≡◌, refl, ap, ap₂, sym, ◌∙◌, arith, none, some, Bool, true, false, not, leb,
  ltb, ◌==◌, if◌then◌else◌,
}
use diffsecp.Tests.Bytes.{bit, check, check_passes, is_nonzero-bit, bit-true}
use diffsecp.Tests.Field.Builds as Field
use diffsecp.Tests.Field.Builds.{release, verify, Checked, to_value, of_value}
use diffsecp.Tests.Scalar.Builds as Scalar
use diffsecp.Run.Results.{SameOption}
use diffsecp.Group.Api.{GroupApi}
use diffsecp.Group.Contract.{GroupContract}

flag : ℕ → ℕ
flag p = if p == 0 then 1 else 0

flag_nonzero : (p : ℕ) → flag p ≡ 0 → not (p == 0) ≡ true
unfolding flag
flag_nonzero p e = ground (arith, e)

pub release_build : GroupApi
unfolding release
release_build = record {
  field = release;
  scalar = Scalar.build false;
  Ge = ℕ;
  Gej = ℕ;
  ge_x = λ p. p;
  ge_y = λ p. p;
  ge_infinity = λ p. flag p;
  ge_with = λ p x y. p;
  gej_z = λ p. 1;
  gej_infinity = λ p. flag p;
  Scratch = ℕ;
  ge_set_gej_var = λ p. some p;
  gej_set_infinity = some 0;
  gej_set_ge = λ p. some p;
  ge_set_xo_var = λ x odd. some (bit true, x);
  ecmult_gen_gej = λ a. some 9;
  gej_add_var = λ p q. some (p + q);
  gej_add_var_rzr = λ p q. some (p + q, 1);
  gej_add_ge = λ p q. some (p + q);
  gej_add_ge_var = λ p q. some (p + q);
  gej_add_ge_var_rzr = λ p q. some (p + q, 1);
  gej_add_zinv_var = λ p q z. some (p + q);
  gej_double = λ p. some (p + p);
  gej_double_var = λ p. some (p + p, 1);
  gej_neg = λ p. some (p + 1);
  gej_rescale = λ p z. some (p);
  ge_mul_lambda = λ p. some (p + 2);
  ecmult = λ p a n. some (p + 3);
  ecmult_const_gej = λ p a. some (p + 4);
  ecmult_const_xonly = λ n d q known. some (bit (n % 2 == 1), n);
  scratch_space_create = λ size. some (if size == 0 then none else some size);
  scratch_space_destroy = λ s. some tt;
  ecmult_multi_var = λ s n cb count. some (bit (ltb count 88), count);
  ge_set_all_gej_var = λ r n. some r;
  ge_set_all_gej = λ r n. some r;
  gej_is_infinity = λ p. some (bit (p == 0));
  gej_eq_var = λ p q. some (bit (p == q));
  gej_eq_ge_var = λ p q. some (bit (p == q));
  ge_eq_var = λ p q. some (bit (p == q));
  ge_is_valid_var = λ p. some (bit true);
  gej_eq_x_var = λ x p. some (bit (x == p));
  ge_x_on_curve_var = λ x. some (bit (x % 2 == 1));
  ge_x_frac_on_curve_var = λ n d. some (bit (n == 1));
}

pub verify_build : GroupApi
unfolding verify
verify_build = record {
  field = verify;
  scalar = Scalar.build true;
  Ge = ℕ;
  Gej = ℕ;
  ge_x = λ p. record { val = p; mag = 1 };
  ge_y = λ p. record { val = p; mag = 1 };
  ge_infinity = λ p. flag p;
  ge_with = λ p x y. p;
  gej_z = λ p. record { val = 1; mag = 1 };
  gej_infinity = λ p. flag p;
  Scratch = ℕ;
  ge_set_gej_var = λ p. some p;
  gej_set_infinity = some 0;
  gej_set_ge = λ p. some p;
  ge_set_xo_var = λ x odd. check (leb odd 1) (bit true, x.val);
  ecmult_gen_gej = λ a. some 9;
  gej_add_var = λ p q. some (p + q);
  gej_add_var_rzr = λ p q. check (not (p == 0)) (p + q, record { val = 1; mag = 1 });
  gej_add_ge = λ p q. check (not (q == 0)) (p + q);
  gej_add_ge_var = λ p q. some (p + q);
  gej_add_ge_var_rzr = λ p q. check (not (p == 0)) (p + q, record { val = 1; mag = 1 });
  gej_add_zinv_var = λ p q z. some (p + q);
  gej_double = λ p. some (p + p);
  gej_double_var = λ p. some (p + p, record { val = 1; mag = 1 });
  gej_neg = λ p. some (p + 1);
  gej_rescale = λ p z. check (not (p == 0)) (p);
  ge_mul_lambda = λ p. some (p + 2);
  ecmult = λ p a n. some (p + 3);
  ecmult_const_gej = λ p a. some (p + 4);
  ecmult_const_xonly =
      λ n d q known. check (leb n.mag 4) (bit (n.val % 2 == 1), record { val = n.val; mag = 1 });
  scratch_space_create = λ size. some (if size == 0 then none else some size);
  scratch_space_destroy = λ s. some tt;
  ecmult_multi_var = λ s n cb count. some (bit (ltb count 88), count);
  ge_set_all_gej_var = λ r n. some r;
  ge_set_all_gej = λ r n. some r;
  gej_is_infinity = λ p. some (bit (p == 0));
  gej_eq_var = λ p q. some (bit (p == q));
  gej_eq_ge_var = λ p q. some (bit (p == q));
  ge_eq_var = λ p q. some (bit (p == q));
  ge_is_valid_var = λ p. some (bit true);
  gej_eq_x_var = λ x p. check (not (p == 0)) (bit (x.val == p));
  ge_x_on_curve_var = λ x. some (bit (x.val % 2 == 1));
  ge_x_frac_on_curve_var = λ n d. check (not (d.val == 0)) (bit (n.val == 1));
}

pub builds_agree : GroupContract release_build verify_build
unfolding release_build verify_build release verify
builds_agree = record {
  field = Field.builds_agree;
  scalar = Scalar.builds_agree;
  SameGe = λ p q. p ≡ q;
  SameGej = λ p q. p ≡ q;
  SameScratch = λ s s'. s ≡ s';
  Nonzero = λ x y. x ≢ 0;
  NonzeroScalar = λ x y. Unit;
  SameRatio = λ r a r' a'. (r.1 ≡ 1) × (r'.1 ≡ record { val = 1; mag = 1 });
  OnCurve = λ n d n' d'. Unit;
  value_weaken = λ m n x y l h.
      to_value (record { same = (of_value h).same; small = omega (arith, l, (of_value h).small) });
  members = λ p q h. record {
    infinity = ap flag h;
    x = λ _. to_value (record { same = sym h; small = omega arith });
    y = λ _. to_value (record { same = sym h; small = omega arith });
  };
  gej_infinity = λ p q h. ap flag h;
  ratio =
      λ r a r' a' h. rw (h.0, h.1) (_, _, refl, refl, λ _. (ap some bit-true, ap some bit-true));
  set_int_one = (
    _,
    _,
    refl,
    refl,
    (to_value (record { same = refl; small = omega arith }), λ e. ground (arith, e)),
  );
  normalizes_to_zero_var = λ a a' h. rw (of_value h).same (
    _,
    refl,
    check_passes _ _ (ground (arith, (of_value h).small)),
    λ e z. let q : (a == 0) ≡ false = sym (is_nonzero-bit (a == 0)) ∙ e in ground (arith, q, z),
  );
  scalar_set_int = λ k l. Scalar.set_int_same k;
  scalar_set_int_one = let (a, b, e, e', r) = Scalar.set_int_same 1 in (a, b, e, e', (r, tt));
  scalar_is_zero =
      λ a a' h. let (v, e, e', r) = Scalar.builds_agree.is_zero a a' h in (v, e, e', λ _. tt);
  ge_set_gej_var = λ p q h. (_, _, refl, refl, h);
  gej_set_infinity = (_, _, refl, refl, refl);
  gej_set_ge = λ p q h. (_, _, refl, refl, h);
  ge_set_xo_var = λ a a' odd l h.
      (_, _, refl, check_passes _ _ (ground (arith, l)), (refl, λ _. sym (of_value h).same));
  ecmult_gen_gej = λ a a' h. (_, _, refl, refl, refl);
  gej_add_var = λ p q p' q' h k. (_, _, refl, refl, ap₂ (λ x y. x + y) h k);
  gej_add_var_rzr = λ p q p' q' e h k.
      rw (← h, ← k) (_, _, refl, check_passes _ _ (flag_nonzero p e), (refl, (refl, refl)));
  gej_add_ge =
      λ p q p' q' e h k. rw (← h, ← k) (_, _, refl, check_passes _ _ (flag_nonzero q e), refl);
  gej_add_ge_var = λ p q p' q' h k. (_, _, refl, refl, ap₂ (λ x y. x + y) h k);
  gej_add_ge_var_rzr = λ p q p' q' e h k.
      rw (← h, ← k) (_, _, refl, check_passes _ _ (flag_nonzero p e), (refl, (refl, refl)));
  gej_add_zinv_var = λ p q p' q' s s' e h k u u' n. (_, _, refl, refl, ap₂ (λ x y. x + y) h k);
  gej_add_zinv_var_infinity =
      λ p q p' q' z z' h k e v n. (_, _, refl, refl, ap₂ (λ x y. x + y) h k);
  gej_double = λ p q h. (_, _, refl, refl, ap (λ x. x + x) h);
  gej_double_var = λ p q h. (_, _, refl, refl, (ap (λ x. x + x) h, λ _. (refl, refl)));
  gej_neg = λ p q h. (_, _, refl, refl, ap (λ x. x + 1) h);
  gej_rescale =
      λ p q z z' e h v n. rw (← h) (_, _, refl, check_passes _ _ (flag_nonzero p e), refl);
  ge_mul_lambda = λ p q h. (_, _, refl, refl, ap (λ x. x + 2) h);
  ecmult = λ p q a a' n n' h k l. (_, _, refl, refl, ap (λ x. x + 3) h);
  ecmult_const_gej = λ p q a a' h k. (_, _, refl, refl, ap (λ x. x + 4) h);
  point_x = λ p q h e. tt;
  point_x_over = λ p q d d' h e v n.
      let (x, y, e0, e1, r) =
        Field.builds_agree.mul 4 1 p d (record { val = q; mag = 1 }) d' (omega arith) (omega arith)
          (to_value (record { same = sym h; small = omega arith })) v in
      (x, y, e0, e1, (r, tt));
  ecmult_const_xonly = λ n n' d d' a a' known h v k z o. rw (of_value h).same (
    _,
    _,
    refl,
    check_passes _ _ (ground (arith, (of_value h).small)),
    (refl, λ _. to_value (record { same = refl; small = omega arith })),
  );
  scratch_space_create = λ size. (_, _, refl, refl, same_scratch size);
  scratch_space_destroy = λ s s' h. (_, _, refl, refl, tt);
  ecmult_multi_var = λ s s' n n' cb cb' count h k l. (_, _, refl, refl, (refl, λ _. refl));
  ge_set_all_gej_var = λ r r' n h. (_, _, refl, refl, h);
  ge_set_all_gej = λ r r' n h. (_, _, refl, refl, λ i l. (h i l).0);
  gej_is_infinity = λ p q h. rw h (_, refl, refl, tt);
  gej_eq_var = λ p q p' q' h k. rw (h, k) (_, refl, refl, tt);
  gej_eq_ge_var = λ p q p' q' h k. rw (h, k) (_, refl, refl, tt);
  ge_eq_var = λ p q p' q' h k. rw (h, k) (_, refl, refl, tt);
  ge_is_valid_var = λ p q h. (_, refl, refl, tt);
  gej_eq_x_var = λ x x' p q v e h.
      rw (← h, (of_value v).same) (_, refl, check_passes _ _ (flag_nonzero p e), tt);
  ge_x_on_curve_var = λ a a' h. rw (of_value h).same (_, refl, refl, tt);
  ge_x_frac_on_curve_var = λ n d n' d' h v nz.
      rw ((of_value h).same, (of_value v).same)
        (_, refl, check_passes _ _ (ground (arith, nz)), tt);
}
  where
    same_scratch :
        (size : ℕ)
        → SameOption
            (λ s s'. s ≡ s')
            (if size == 0 then none else some size)
            (if size == 0 then none else some size)
    same_scratch size = by_test (size == 0)
      where
        by_test :
            (b : Bool)
            → SameOption {A = ℕ} {B = ℕ}
                (λ s s'. s ≡ s')
                (if b then none else some size)
                (if b then none else some size)
        by_test true = tt
        by_test false = refl
