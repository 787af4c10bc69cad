-- ===== src/Group/Contract.antt =====
-- What src/targets/group.c relies on of libsecp's group module and its multiplications, for two builds
-- at once: a call within the documented ranges does not abort, and both builds compute the same
-- points. Jacobian coordinates of a point may differ between the builds.
use diffsecp.Prelude.{ℕ, ◌^◌, ◌<◌, ◌≤◌, pos, Option, none, some, ◌≡◌, ◌≢◌, is_nonzero, true, false}
use diffsecp.Run.Agree.{Both, Shared, Any}
use diffsecp.Run.Results.{Succeeds, SameOption}
use diffsecp.Field.Contract.{FieldContract}
use diffsecp.Scalar.Contract.{ScalarContract}
use diffsecp.Group.Api.{GroupApi}

-- One point in both builds: at infinity in both or in neither, and otherwise with the same
-- coordinates, of at most the documented magnitudes.
pub record GeMembers (f g : GroupApi) (c : FieldContract f.field g.field) (p : f.Ge) (q : g.Ge)
    : Type 0 where
  pub infinity : f.ge_infinity p ≡ g.ge_infinity q
  pub x : f.ge_infinity p ≡ 0 → c.Value 4 (f.ge_x p) (g.ge_x q)
  pub y : f.ge_infinity p ≡ 0 → c.Value 3 (f.ge_y p) (g.ge_y q)

-- A `z`, its square, its cube and its inverse, and two coordinates.
pub record Scaled (f : GroupApi) : Type 0 where
  pub z : f.field.Fe
  pub z2 : f.field.Fe
  pub z3 : f.field.Fe
  pub inv : f.field.Fe
  pub x : f.field.Fe
  pub y : f.field.Fe

-- They are what these calls compute from `z` and the point.
pub record IsScaled (f : GroupApi) (q : f.Ge) (s : Scaled f) : Type 0 where
  pub square : f.field.sqr s.z ≡ some s.z2
  pub x : f.field.mul (f.ge_x q) s.z2 ≡ some s.x
  pub cube : f.field.mul s.z2 s.z ≡ some s.z3
  pub y : f.field.mul (f.ge_y q) s.z3 ≡ some s.y
  pub inverse : f.field.inv_var s.z ≡ some s.inv

pub record GroupContract (f g : GroupApi) : Type 1 where
  pub field : FieldContract f.field g.field
  pub scalar : ScalarContract f.scalar g.scalar
  pub SameGe : f.Ge → g.Ge → Type 0
  pub SameGej : f.Gej → g.Gej → Type 0
  pub SameScratch : f.Scratch → g.Scratch → Type 0
  pub Nonzero : f.field.Fe → g.field.Fe → Type 0
  pub NonzeroScalar : f.scalar.Sc → g.scalar.Sc → Type 0
  -- In each build, the third is the ratio of the `z` of the first and the second.
  pub SameRatio : f.Gej × f.field.Fe → f.Gej → g.Gej × g.field.Fe → g.Gej → Type 0
  -- The fraction is the x of a point.
  pub OnCurve : f.field.Fe → Option f.field.Fe → g.field.Fe → Option g.field.Fe → Type 0
  -- A bound on the magnitude may be raised.
  pub value_weaken :
      (m n : ℕ) (x : f.field.Fe) (y : g.field.Fe) → m ≤ n → field.Value m x y → field.Value n x y
  pub members : (p : f.Ge) (q : g.Ge) → SameGe p q → GeMembers f g field p q
  pub gej_infinity : (p : f.Gej) (q : g.Gej) → SameGej p q → f.gej_infinity p ≡ g.gej_infinity q
  -- The promise about `rzr`: off infinity `r->z == a->z * rzr`.
  pub ratio :
      (r : f.Gej × f.field.Fe) (a : f.Gej) (r' : g.Gej × g.field.Fe) (a' : g.Gej)
      → SameRatio r a r' a'
      → Both
          (λ z z'.
            f.gej_infinity r.0 ≡ 0
            → (f.field.equal z (f.gej_z r.0) ≡ some (pos 1))
              × (g.field.equal z' (g.gej_z r'.0) ≡ some (pos 1)))
          (f.field.mul (f.gej_z a) r.1)
          (g.field.mul (g.gej_z a') r'.1)
  pub set_int_one :
      Both (λ x y. field.Value 1 x y × Nonzero x y) (f.field.set_int 1) (g.field.set_int 1)
  pub normalizes_to_zero_var :
      (a : f.field.Fe) (a' : g.field.Fe)
      → field.Value 1 a a'
      → Shared
          (λ v. is_nonzero v ≡ false → Nonzero a a')
          (f.field.normalizes_to_zero_var a)
          (g.field.normalizes_to_zero_var a')
  pub scalar_set_int :
      (k : ℕ) → k < 2 ^ 32 → Both scalar.Value (f.scalar.set_int k) (g.scalar.set_int k)
  pub scalar_set_int_one :
      Both (λ x y. scalar.Value x y × NonzeroScalar x y) (f.scalar.set_int 1) (g.scalar.set_int 1)
  pub scalar_is_zero :
      (a : f.scalar.Sc) (a' : g.scalar.Sc)
      → scalar.Value a a'
      → Shared
          (λ v. is_nonzero v ≡ false → NonzeroScalar a a')
          (f.scalar.is_zero a)
          (g.scalar.is_zero a')
  pub ge_set_gej_var :
      (p : f.Gej) (q : g.Gej) → SameGej p q → Both SameGe (f.ge_set_gej_var p) (g.ge_set_gej_var q)
  pub gej_set_infinity : Both SameGej f.gej_set_infinity g.gej_set_infinity
  pub gej_set_ge :
      (p : f.Ge) (q : g.Ge) → SameGe p q → Both SameGej (f.gej_set_ge p) (g.gej_set_ge q)
  pub ge_set_xo_var :
      (a : f.field.Fe) (a' : g.field.Fe) (odd : ℕ)
      → odd ≤ 1
      → field.Value 1 a a'
      → Both (Succeeds SameGe) (f.ge_set_xo_var a odd) (g.ge_set_xo_var a' odd)
  pub ecmult_gen_gej :
      (a : f.scalar.Sc) (a' : g.scalar.Sc)
      → scalar.Value a a'
      → Both SameGej (f.ecmult_gen_gej a) (g.ecmult_gen_gej a')
  pub gej_add_var :
      (p q : f.Gej) (p' q' : g.Gej)
      → SameGej p p'
      → SameGej q q'
      → Both SameGej (f.gej_add_var p q) (g.gej_add_var p' q')
  -- `rzr` is defined where the first point is not infinity.
  pub gej_add_var_rzr :
      (p q : f.Gej) (p' q' : g.Gej)
      → f.gej_infinity p ≡ 0
      → SameGej p p'
      → SameGej q q'
      → Both
          (λ r r'. SameGej r.0 r'.0 × SameRatio r p r' p')
          (f.gej_add_var_rzr p q)
          (g.gej_add_var_rzr p' q')
  -- The second point is not infinity.
  pub gej_add_ge :
      (p : f.Gej) (q : f.Ge) (p' : g.Gej) (q' : g.Ge)
      → f.ge_infinity q ≡ 0
      → SameGej p p'
      → SameGe q q'
      → Both SameGej (f.gej_add_ge p q) (g.gej_add_ge p' q')
  pub gej_add_ge_var :
      (p : f.Gej) (q : f.Ge) (p' : g.Gej) (q' : g.Ge)
      → SameGej p p'
      → SameGe q q'
      → Both SameGej (f.gej_add_ge_var p q) (g.gej_add_ge_var p' q')
  pub gej_add_ge_var_rzr :
      (p : f.Gej) (q : f.Ge) (p' : g.Gej) (q' : g.Ge)
      → f.gej_infinity p ≡ 0
      → SameGej p p'
      → SameGe q q'
      → Both
          (λ r r'. SameGej r.0 r'.0 × SameRatio r p r' p')
          (f.gej_add_ge_var_rzr p q)
          (g.gej_add_ge_var_rzr p' q')
  -- The second point as the coordinates of one, times the powers of a `z`, and the inverse of `z`.
  pub gej_add_zinv_var :
      (p : f.Gej) (q : f.Ge) (p' : g.Gej) (q' : g.Ge) (s : Scaled f) (s' : Scaled g)
      → f.ge_infinity q ≡ 0
      → SameGej p p'
      → SameGe q q'
      → IsScaled f q s
      → IsScaled g q' s'
      → Nonzero s.z s'.z
      → Both SameGej
          (f.gej_add_zinv_var p (f.ge_with q s.x s.y) s.inv)
          (g.gej_add_zinv_var p' (g.ge_with q' s'.x s'.y) s'.inv)
  pub gej_add_zinv_var_infinity :
      (p : f.Gej) (q : f.Ge) (p' : g.Gej) (q' : g.Ge) (z : f.field.Fe) (z' : g.field.Fe)
      → SameGej p p'
      → SameGe q q'
      → f.ge_infinity q ≢ 0
      → field.Value 1 z z'
      → Nonzero z z'
      → Both SameGej (f.gej_add_zinv_var p q z) (g.gej_add_zinv_var p' q' z')
  pub gej_double :
      (p : f.Gej) (q : g.Gej) → SameGej p q → Both SameGej (f.gej_double p) (g.gej_double q)
  -- At infinity `rzr` is set too, to 1.
  pub gej_double_var :
      (p : f.Gej) (q : g.Gej)
      → SameGej p q
      → Both
          (λ r r'. SameGej r.0 r'.0 × (f.gej_infinity p ≡ 0 → SameRatio r p r' q))
          (f.gej_double_var p)
          (g.gej_double_var q)
  pub gej_neg : (p : f.Gej) (q : g.Gej) → SameGej p q → Both SameGej (f.gej_neg p) (g.gej_neg q)
  pub gej_rescale :
      (p : f.Gej) (q : g.Gej) (z : f.field.Fe) (z' : g.field.Fe)
      → f.gej_infinity p ≡ 0
      → SameGej p q
      → field.Value 1 z z'
      → Nonzero z z'
      → Both SameGej (f.gej_rescale p z) (g.gej_rescale q z')
  pub ge_mul_lambda :
      (p : f.Ge) (q : g.Ge) → SameGe p q → Both SameGe (f.ge_mul_lambda p) (g.ge_mul_lambda q)
  pub ecmult :
      (p : f.Gej) (q : g.Gej) (a : f.scalar.Sc) (a' : g.scalar.Sc) (n : Option f.scalar.Sc)
      (n' : Option g.scalar.Sc)
      → SameGej p q
      → scalar.Value a a'
      → SameOption scalar.Value n n'
      → Both SameGej (f.ecmult p a n) (g.ecmult q a' n')
  pub ecmult_const_gej :
      (p : f.Ge) (q : g.Ge) (a : f.scalar.Sc) (a' : g.scalar.Sc)
      → SameGe p q
      → scalar.Value a a'
      → Both SameGej (f.ecmult_const_gej p a) (g.ecmult_const_gej q a')
  pub point_x :
      (p : f.Ge) (q : g.Ge)
      → SameGe p q
      → f.ge_infinity p ≡ 0
      → OnCurve (f.ge_x p) none (g.ge_x q) none
  pub point_x_over :
      (p : f.Ge) (q : g.Ge) (d : f.field.Fe) (d' : g.field.Fe)
      → SameGe p q
      → f.ge_infinity p ≡ 0
      → field.Value 1 d d'
      → Nonzero d d'
      → Both
          (λ n n'. field.Value 1 n n' × OnCurve n (some d) n' (some d'))
          (f.field.mul (f.ge_x p) d)
          (g.field.mul (g.ge_x q) d')
  -- With `known_on_curve`, the fraction is the x of a point.
  pub ecmult_const_xonly :
      (n : f.field.Fe) (n' : g.field.Fe) (d : Option f.field.Fe) (d' : Option g.field.Fe)
      (a : f.scalar.Sc) (a' : g.scalar.Sc) (known : ℕ)
      → field.Value 4 n n'
      → SameOption (λ d d'. field.Value 1 d d' × Nonzero d d') d d'
      → scalar.Value a a'
      → NonzeroScalar a a'
      → (is_nonzero (pos known) ≡ true → OnCurve n d n' d')
      → Both
          (Succeeds (field.Value 1))
          (f.ecmult_const_xonly n d a known)
          (g.ecmult_const_xonly n' d' a' known)
  pub scratch_space_create :
      (size : ℕ)
      → Both (SameOption SameScratch) (f.scratch_space_create size) (g.scratch_space_create size)
  pub scratch_space_destroy :
      (s : Option f.Scratch) (s' : Option g.Scratch)
      → SameOption SameScratch s s'
      → Both (λ _ _. Unit {0}) (f.scratch_space_destroy s) (g.scratch_space_destroy s')
  -- Either it fails in both builds, where the partial sum may differ, or in neither.
  pub ecmult_multi_var :
      (s : Option f.Scratch) (s' : Option g.Scratch) (n : Option f.scalar.Sc)
      (n' : Option g.scalar.Sc) (cb : ℕ → Option (Option (f.scalar.Sc × f.Ge)))
      (cb' : ℕ → Option (Option (g.scalar.Sc × g.Ge))) (count : ℕ)
      → SameOption SameScratch s s'
      → SameOption scalar.Value n n'
      → ((i : ℕ)
          → i < count
          → Both (SameOption (λ p q. scalar.Value p.0 q.0 × SameGe p.1 q.1)) (cb i) (cb' i))
      → Both
          (Succeeds SameGej)
          (f.ecmult_multi_var s n cb count)
          (g.ecmult_multi_var s' n' cb' count)
  pub ge_set_all_gej_var :
      (r : ℕ → f.Gej) (r' : ℕ → g.Gej) (n : ℕ)
      → ((i : ℕ) → i < n → SameGej (r i) (r' i))
      → Both
          (λ a a'. (i : ℕ) → i < n → SameGe (a i) (a' i))
          (f.ge_set_all_gej_var r n)
          (g.ge_set_all_gej_var r' n)
  -- No point is infinity.
  pub ge_set_all_gej :
      (r : ℕ → f.Gej) (r' : ℕ → g.Gej) (n : ℕ)
      → ((i : ℕ) → i < n → SameGej (r i) (r' i) × (f.gej_infinity (r i) ≡ 0))
      → Both
          (λ a a'. (i : ℕ) → i < n → SameGe (a i) (a' i))
          (f.ge_set_all_gej r n)
          (g.ge_set_all_gej r' n)
  pub gej_is_infinity :
      (p : f.Gej) (q : g.Gej) → SameGej p q → Shared Any (f.gej_is_infinity p) (g.gej_is_infinity q)
  pub gej_eq_var :
      (p q : f.Gej) (p' q' : g.Gej)
      → SameGej p p'
      → SameGej q q'
      → Shared Any (f.gej_eq_var p q) (g.gej_eq_var p' q')
  pub gej_eq_ge_var :
      (p : f.Gej) (q : f.Ge) (p' : g.Gej) (q' : g.Ge)
      → SameGej p p'
      → SameGe q q'
      → Shared Any (f.gej_eq_ge_var p q) (g.gej_eq_ge_var p' q')
  pub ge_eq_var :
      (p q : f.Ge) (p' q' : g.Ge)
      → SameGe p p'
      → SameGe q q'
      → Shared Any (f.ge_eq_var p q) (g.ge_eq_var p' q')
  pub ge_is_valid_var :
      (p : f.Ge) (q : g.Ge) → SameGe p q → Shared Any (f.ge_is_valid_var p) (g.ge_is_valid_var q)
  pub gej_eq_x_var :
      (x : f.field.Fe) (x' : g.field.Fe) (p : f.Gej) (q : g.Gej)
      → field.Value 4 x x'
      → f.gej_infinity p ≡ 0
      → SameGej p q
      → Shared Any (f.gej_eq_x_var x p) (g.gej_eq_x_var x' q)
  pub ge_x_on_curve_var :
      (a : f.field.Fe) (a' : g.field.Fe)
      → field.Value 1 a a'
      → Shared Any (f.ge_x_on_curve_var a) (g.ge_x_on_curve_var a')
  pub ge_x_frac_on_curve_var :
      (n d : f.field.Fe) (n' d' : g.field.Fe)
      → field.Value 1 n n'
      → field.Value 1 d d'
      → Nonzero d d'
      → Shared Any (f.ge_x_frac_on_curve_var n d) (g.ge_x_frac_on_curve_var n' d')
