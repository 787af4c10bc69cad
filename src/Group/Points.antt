-- ===== src/Group/Points.antt =====
-- What the group target reads and records of points, over two builds.
use diffsecp.Prelude.{ℕ, ◌≤◌, pos, of_bool, ◌≡◌, refl, arith, ◌&&◌, is_nonzero, ◌==◌}
use diffsecp.Run.Agree.{
  Agree, Agree-pure, Agree-call, Agree-shared, Agree-lift, Agree-step, Agree-if, Agree-post,
  Agree-bind,
}
use diffsecp.Run.Steps.{Does-take, Does-put, Does-put_u8, Does-put_int}
use diffsecp.Group.Api.{GroupApi}
use diffsecp.Group.Contract.{GroupContract}
use diffsecp.Group.Target.{
  group_take_scalar, group_take_fe, group_take_nonzero_fe, group_affine, group_record_fe,
  group_record_ge, group_record_rzr, query_x, group_query,
}

module _ (f g : GroupApi) (c : GroupContract f g) where
  pub take_scalar-Agree : Agree 0 c.scalar.Value (group_take_scalar f) (group_take_scalar g)
  unfolding group_take_scalar
  take_scalar-Agree =
      Agree-step 0 (Does-take 32) refl
        λ b l. Agree-call (c.scalar.set_b32 b l) λ s s' h. Agree-pure _ _ h.1

  pub take_fe-Agree : Agree 0 (c.field.Value 1) (group_take_fe f) (group_take_fe g)
  unfolding group_take_fe
  take_fe-Agree = Agree-step 0 (Does-take 32) refl λ b l. Agree-lift (c.field.set_b32_mod b l)

  pub take_nonzero_fe-Agree :
      Agree 0
        (λ x y. c.field.Value 1 x y × c.Nonzero x y)
        (group_take_nonzero_fe f)
        (group_take_nonzero_fe g)
  unfolding group_take_nonzero_fe
  take_nonzero_fe-Agree = Agree-bind 0 take_fe-Agree refl λ x x' h.
      Agree-shared (c.normalizes_to_zero_var x x' h) λ v nonzero.
        Agree-if (is_nonzero v) (λ _. Agree-lift c.set_int_one) (λ e. Agree-pure _ _ (h, nonzero e))

  pub affine-Agree :
      (p : f.Gej) (q : g.Gej)
      → c.SameGej p q
      → Agree 0 c.SameGe (group_affine f p) (group_affine g q)
  unfolding group_affine
  affine-Agree p q h = Agree-lift (c.ge_set_gej_var p q h)

  pub record_fe-Agree :
      (m : ℕ) (x : f.field.Fe) (y : g.field.Fe)
      → m ≤ 32
      → c.field.Value m x y
      → Agree 32 (λ _ _. Unit {0}) (group_record_fe f x) (group_record_fe g y)
  unfolding group_record_fe
  record_fe-Agree m x y b h = Agree-call (c.field.normalize_var m x y b h) λ n n' hn.
      Agree-shared (c.field.get_b32 n n' hn)
        λ b l. Agree-post (Does-put b 32 (omega (arith, l))) (λ _ _ _. tt)

  pub record_ge-Agree :
      (p : f.Ge) (q : g.Ge)
      → c.SameGe p q
      → Agree 65 (λ _ _. Unit {0}) (group_record_ge f p) (group_record_ge g q)
  unfolding group_record_ge
  record_ge-Agree p q h =
      let v = c.members p q h in
      rw (← v.infinity) (
        Agree-step 1 (Does-put_u8 (f.ge_infinity p)) refl λ _ _.
          Agree-if (f.ge_infinity p == 0)
            (λ e.
              let finite : f.ge_infinity p ≡ 0 = ground (arith, e) in
              Agree-bind 32 (record_fe-Agree 4 (f.ge_x p) (g.ge_x q) (omega arith) (v.x finite))
                refl λ _ _ _. record_fe-Agree 3 (f.ge_y p) (g.ge_y q) (omega arith) (v.y finite))
            (λ _. Agree-pure tt tt tt))

  pub record_rzr-Agree :
      (r : f.Gej × f.field.Fe) (a : f.Gej) (r' : g.Gej × g.field.Fe) (a' : g.Gej)
      → c.SameGej r.0 r'.0
      → c.SameRatio r a r' a'
      → Agree 4 (λ _ _. Unit {0}) (group_record_rzr f r.0 a r.1) (group_record_rzr g r'.0 a' r'.1)
  unfolding group_record_rzr
  record_rzr-Agree r a r' a' h ratio = Agree-call (c.ratio r a r' a' ratio) λ z z' same.
      rw (← c.gej_infinity r.0 r'.0 h) (
        Agree-if (f.gej_infinity r.0 == 0)
          (λ e.
            let finite : f.gej_infinity r.0 ≡ 0 = ground (arith, e) in
            Agree-shared {P = λ _. Unit {0}} (pos 1, (same finite).0, (same finite).1, tt)
              λ v _. Agree-post (Does-put_int (of_bool (is_nonzero v))) (λ _ _ _. tt))
          (λ _. Agree-post (Does-put_int (pos 1)) (λ _ _ _. tt)))

  query_x-Agree :
      (p : f.Gej) (q : f.Ge) (p' : g.Gej) (q' : g.Ge)
      → c.SameGej p p'
      → c.SameGe q q'
      → Agree 4 (λ _ _. Unit {0}) (query_x f p q) (query_x g p' q')
  unfolding query_x
  query_x-Agree p q p' q' h hq =
      let v = c.members q q' hq in
      rw (← v.infinity, ← c.gej_infinity p p' h)
        (Agree-if (f.gej_infinity p == 0 && f.ge_infinity q == 0)
          (λ e.
            let finite : f.gej_infinity p ≡ 0 = ground (arith, e) in
            let finite_q : f.ge_infinity q ≡ 0 = ground (arith, e) in
            Agree-shared (c.gej_eq_x_var (f.ge_x q) (g.ge_x q') p p' (v.x finite_q) finite h)
              λ v _. Agree-post (Does-put_int v) (λ _ _ _. tt))
          (λ _. Agree-pure tt tt tt))

  pub query-Agree :
      (a b : f.Gej) (ga gb : f.Ge) (a' b' : g.Gej) (ga' gb' : g.Ge)
      → c.SameGej a a'
      → c.SameGej b b'
      → c.SameGe ga ga'
      → c.SameGe gb gb'
      → Agree 32 (λ _ _. Unit {0}) (group_query f a b ga gb) (group_query g a' b' ga' gb')
  unfolding group_query
  query-Agree a b ga gb a' b' ga' gb' ha hb hga hgb = Agree-bind 0 take_fe-Agree refl λ n n' hn.
      Agree-bind 0 take_nonzero_fe-Agree refl λ d d' hd.
        Agree-shared (c.gej_is_infinity a a' ha) λ v0 _. Agree-step 4 (Does-put_int v0) refl λ _ _.
          Agree-shared (c.gej_eq_var a b a' b' ha hb) λ v1 _.
            Agree-step 4 (Does-put_int v1) refl λ _ _.
              Agree-shared (c.gej_eq_ge_var a gb a' gb' ha hgb) λ v2 _.
                Agree-step 4 (Does-put_int v2) refl λ _ _.
                  Agree-shared (c.ge_eq_var ga gb ga' gb' hga hgb) λ v3 _.
                    Agree-step 4 (Does-put_int v3) refl λ _ _.
                      Agree-shared (c.ge_is_valid_var ga ga' hga) λ v4 _.
                        Agree-step 4 (Does-put_int v4) refl λ _ _.
                          Agree-bind 4 (query_x-Agree a gb a' gb' ha hgb) refl λ _ _ _.
                            Agree-shared (c.ge_x_on_curve_var n n' hn) λ v5 _.
                              Agree-step 4 (Does-put_int v5) refl λ _ _.
                                Agree-shared (c.ge_x_frac_on_curve_var n d n' d' hn hd.0 hd.1)
                                  λ v6 _. Agree-post (Does-put_int v6) (λ _ _ _. tt)
