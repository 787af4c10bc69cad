-- ===== src/Group/Records.antt =====
-- The functions of the group target on many points, and on x alone, over two builds.
use diffsecp.Prelude.{
  ℕ, zero, suc, ◌+◌, ◌*◌, ◌<◌, ◌≤◌, pos, ◌≡◌, refl, arith, Bool, true, false, not, ◌||◌, is_nonzero,
  ◌==◌, ◌≢◌, Bool-cases, inl, inr, if◌then◌else◌, has_flag,
}
use diffsecp.Run.Agree.{
  Agree, Agree-pure, Agree-call, Agree-shared, Agree-lift, Agree-step, Agree-if, Agree-post,
  Agree-bind, Agree-bind_le, Agree-weaken,
}
use diffsecp.Run.Steps.{Does-u8, Does-put_int}
use diffsecp.Run.Results.{SameOption}
use diffsecp.Group.Api.{GroupApi}
use diffsecp.Group.Contract.{GroupContract}
use diffsecp.Group.Target.{
  nonzero_scalar, xonly_n, given_if, group_ecmult_const_xonly, any_infinity, record_points,
  group_batch_affine,
}
use diffsecp.Group.Points.{
  take_scalar-Agree, take_fe-Agree, take_nonzero_fe-Agree, record_fe-Agree, record_ge-Agree,
}

module _ (f g : GroupApi) (c : GroupContract f g) where
  nonzero_scalar-Agree :
      (q : f.scalar.Sc) (q' : g.scalar.Sc)
      → c.scalar.Value q q'
      → Agree 0
          (λ x y. c.scalar.Value x y × c.NonzeroScalar x y)
          (nonzero_scalar f q)
          (nonzero_scalar g q')
  unfolding nonzero_scalar
  nonzero_scalar-Agree q q' h = Agree-shared (c.scalar_is_zero q q' h) λ v nonzero.
      Agree-if (is_nonzero v) (λ _. Agree-lift c.scalar_set_int_one)
        (λ e. Agree-pure _ _ (h, nonzero e))

  -- A numerator, over `d` or alone; on the curve unless it is raw.
  abbrev SameN : Bool → Bool → f.field.Fe → g.field.Fe → f.field.Fe → g.field.Fe → Type 0
  SameN raw over d d' n n' =
      c.field.Value 4 n n' × (raw ≡ false → c.OnCurve n (given_if f over d) n' (given_if g over d'))

  xonly_n-Agree :
      (raw over : Bool) (a : f.Ge) (a' : g.Ge) (n d : f.field.Fe) (n' d' : g.field.Fe)
      → c.SameGe a a'
      → (raw ≡ false → f.ge_infinity a ≡ 0)
      → c.field.Value 4 n n'
      → c.field.Value 1 d d'
      → c.Nonzero d d'
      → Agree 0 (SameN raw over d d') (xonly_n f raw over a n d) (xonly_n g raw over a' n' d')
  unfolding xonly_n
  xonly_n-Agree true over a a' n d n' d' h finite hn hd nd =
      Agree-pure _ _ (hn, λ e. ground (arith, e))
  xonly_n-Agree false true a a' n d n' d' h finite hn hd nd =
      Agree-post (Agree-lift (c.point_x_over a a' d d' h (finite refl) hd nd))
        (λ m m' hm. (c.value_weaken 1 4 m m' (omega arith) hm.0, λ _. hm.1))
  xonly_n-Agree false false a a' n d n' d' h finite hn hd nd =
      Agree-pure _ _ ((c.members a a' h).x (finite refl), λ _. c.point_x a a' h (finite refl))

  pub ecmult_const_xonly-Agree :
      (a : f.Ge) (a' : g.Ge)
      → c.SameGe a a'
      → Agree 36 (λ _ _. Unit {0}) (group_ecmult_const_xonly f a) (group_ecmult_const_xonly g a')
  unfolding group_ecmult_const_xonly
  ecmult_const_xonly-Agree a a' h = rw (← (c.members a a' h).infinity) (
      Agree-bind 0 (take_scalar-Agree f g c) refl λ q0 q0' hq0. Agree-step 0 Does-u8 refl λ flags _.
        Agree-bind 0 (take_fe-Agree f g c) refl λ n0 n0' hn0.
          Agree-bind 0 (take_nonzero_fe-Agree f g c) refl λ d d' hd.
            Agree-bind 0 (nonzero_scalar-Agree q0 q0' hq0) refl λ q q' hq.
              let raw = has_flag flags 1 || not (f.ge_infinity a == 0) in
              Agree-bind 0
                (xonly_n-Agree raw (has_flag flags 2) a a' n0 d n0' d' h (λ e. ground (arith, e))
                  (c.value_weaken 1 4 n0 n0' (omega arith) hn0) hd.0 hd.1)
                refl
                λ n n' hn.
                  Agree-call
                    (c.ecmult_const_xonly n n' _ _ q q' (if raw then 0 else 1) hn.0
                      (given (has_flag flags 2) d d' hd) hq.0 hq.1 (λ e. hn.1 (known raw e)))
                    λ x x' hx. rw (← hx.0) (
                      Agree-step 4 (Does-put_int x.0) refl λ _ _.
                        Agree-if (is_nonzero x.0)
                          (λ ok. record_fe-Agree f g c 1 x.1 x'.1 (omega arith) (hx.1 ok))
                          (λ _. Agree-pure tt tt tt)))
    where
      given :
          (b : Bool) (d : f.field.Fe) (d' : g.field.Fe)
          → c.field.Value 1 d d' × c.Nonzero d d'
          → SameOption
              (λ d d'. c.field.Value 1 d d' × c.Nonzero d d')
              (given_if f b d)
              (given_if g b d')
      given true d d' h = h
      given false d d' h = tt

      known : (raw : Bool) → is_nonzero (pos (if raw then 0 else 1)) ≡ true → raw ≡ false
      known true e = ground (arith, e)
      known false e = refl

  -- The flags of infinity are the same in both builds.
  same_any_infinity :
      (n : ℕ) (r : ℕ → f.Gej) (r' : ℕ → g.Gej)
      → ((i : ℕ) → c.SameGej (r i) (r' i))
      → any_infinity f n r ≡ any_infinity g n r'
  unfolding any_infinity
  same_any_infinity zero r r' h = refl
  same_any_infinity (suc n) r r' h =
      rw (c.gej_infinity (r n) (r' n) (h n), same_any_infinity n r r' h) refl

  none_infinite :
      (n : ℕ) (r : ℕ → f.Gej)
      → any_infinity f n r ≡ false
      → (i : ℕ) → i < n
      → f.gej_infinity (r i) ≡ 0
  unfolding any_infinity
  none_infinite zero r e i l = absurd (omega (arith, l))
  none_infinite (suc n) r e i l =
      let last : f.gej_infinity (r n) ≡ 0 = ground (arith, e) in
      let rest : any_infinity f n r ≡ false = ground (arith, e) in
      elim (Bool-cases (i == n)) [
        | inl q ↦ let same : i ≡ n = ground (arith, q) in rw same last
        | inr q ↦
            none_infinite n r rest i (let far : i ≢ n = ground (arith, q) in omega (arith, l, far))
      ]

  record_points-Agree :
      (left i n : ℕ) (p : ℕ → f.Ge) (q : ℕ → g.Ge)
      → i + left ≤ n
      → ((i : ℕ) → i < n → c.SameGe (p i) (q i))
      → Agree (left * 65) (λ _ _. Unit {0}) (record_points f left i p) (record_points g left i q)
  unfolding record_points
  record_points-Agree zero i n p q b h = Agree-pure tt tt tt
  record_points-Agree (suc left) i n p q b h =
      Agree-bind_le 65 {k = left * 65} (omega arith)
        (record_ge-Agree f g c (p i) (q i) (h i (omega arith)))
        λ _ _ _. record_points-Agree left (suc i) n p q (omega arith) h

  pub batch_affine-Agree :
      (r : ℕ → f.Gej) (r' : ℕ → g.Gej) (n : ℕ)
      → n ≤ 4
      → ((i : ℕ) → c.SameGej (r i) (r' i))
      → Agree 520 (λ _ _. Unit {0}) (group_batch_affine f r n) (group_batch_affine g r' n)
  unfolding group_batch_affine
  batch_affine-Agree r r' n b h = rw (← same_any_infinity n r r' h) (
      Agree-call (c.ge_set_all_gej_var r r' n (λ i _. h i)) λ p q hp.
        Agree-bind 260 (Agree-weaken (omega arith) (record_points-Agree n 0 n p q (omega arith) hp))
          refl
          λ _ _ _.
            Agree-if (any_infinity f n r) (λ _. Agree-pure tt tt tt)
              (λ e.
                Agree-call (c.ge_set_all_gej r r' n (λ i l. (h i, none_infinite n r e i l)))
                  λ p q hp.
                    Agree-weaken (omega arith) (record_points-Agree n 0 n p q (omega arith) hp)))
