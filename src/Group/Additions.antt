-- ===== src/Group/Additions.antt =====
-- The state of the group target over two builds, and its additions.
use diffsecp.Prelude.{
  ℕ, ◌≤◌, Option, some, ◌≡◌, refl, arith, Bool, is_nonzero, bit_and, bit_and-one, ◌==◌,
}
use diffsecp.Run.{M}
use diffsecp.Run.Agree.{
  Agree, Both, Agree-pure, Agree-call, Agree-lift, Agree-step, Agree-if, Agree-bind, Agree-weaken,
}
use diffsecp.Run.Steps.{Does-u8, Does-put_int}
use diffsecp.Group.Api.{GroupApi}
use diffsecp.Group.Contract.{GroupContract, Scaled}
use diffsecp.Group.Machine.{State, Operands, keep, add_case, case_set_xo, case_add_zinv_var}
use diffsecp.Group.Points.{take_fe-Agree, take_nonzero_fe-Agree, record_rzr-Agree}

-- The calls' results with the equations that say so.
traced :
    {A B : Type 0} {R : A → B → Type 0} {o : Option A} {o' : Option B}
    → Both R o o'
    → Both (λ a b. (o ≡ some a) × ((o' ≡ some b) × R a b)) o o'
traced (a, b, e, e', r) = (a, b, e, e', (e, (e', r)))

module _ (f g : GroupApi) (c : GroupContract f g) where
  pub record SameState (s : State f) (s' : State g) : Type 0 where
    pub reg : (i : ℕ) → c.SameGej (s.reg i) (s'.reg i)
    pub large : s.large ≡ s'.large

  pub record SameOperands (o : Operands f) (o' : Operands g) : Type 0 where
    pub a : c.SameGej o.a o'.a
    pub b : c.SameGej o.b o'.b
    pub ga : c.SameGe o.ga o'.ga
    pub gb : c.SameGe o.gb o'.gb

  abbrev pub SameCase : f.Gej × Bool → g.Gej × Bool → Type 0
  SameCase r r' = c.SameGej r.0 r'.0 × (r.1 ≡ r'.1)

  pub keep-Agree :
      (n : ℕ) (large : Bool) (m : M f.Gej) (m' : M g.Gej)
      → n ≤ 520
      → Agree n c.SameGej m m'
      → Agree 520 SameCase (keep f large m) (keep g large m')
  unfolding keep
  keep-Agree n large m m' h e =
      Agree-bind 520 (Agree-weaken h e) refl λ r r' q. Agree-pure _ _ (q, refl)

  pub add_case-Agree :
      (a : f.Gej) (a' : g.Gej) (o : Option f.Gej) (o' : Option g.Gej)
      (r : Option (f.Gej × f.field.Fe)) (r' : Option (g.Gej × g.field.Fe))
      → c.SameGej a a'
      → Both c.SameGej o o'
      → (f.gej_infinity a ≡ 0 → Both (λ r r'. c.SameGej r.0 r'.0 × c.SameRatio r a r' a') r r')
      → Agree 4 c.SameGej (add_case f a o r) (add_case g a' o' r')
  unfolding add_case
  add_case-Agree a a' o o' r r' h plain ratio = rw (← c.gej_infinity a a' h) (
      Agree-if (f.gej_infinity a == 0)
        (λ e. Agree-call (ratio (ground (arith, e))) λ s s' hs.
          Agree-bind 4 (record_rzr-Agree f g c s a s' a' hs.0 hs.1) refl
            λ _ _ _. Agree-pure _ _ hs.0)
        (λ _. Agree-lift plain))

  pub set_xo-Agree :
      (res : f.Gej) (res' : g.Gej)
      → c.SameGej res res'
      → Agree 4 c.SameGej (case_set_xo f res) (case_set_xo g res')
  unfolding case_set_xo
  set_xo-Agree res res' h = Agree-bind 0 (take_fe-Agree f g c) refl λ x x' hx.
      Agree-step 0 Does-u8 refl λ odd _.
        Agree-call (c.ge_set_xo_var x x' (bit_and odd 1) (omega (arith, bit_and-one odd)) hx)
          λ p p' hp. rw (← hp.0) (
            Agree-step 4 (Does-put_int p.0) refl λ _ _.
              Agree-if (is_nonzero p.0) (λ ok. Agree-lift (c.gej_set_ge p.1 p'.1 (hp.1 ok)))
                (λ _. Agree-pure _ _ h))

  pub add_zinv_var-Agree :
      (o : Operands f) (o' : Operands g)
      → SameOperands o o'
      → Agree 0 c.SameGej (case_add_zinv_var f o) (case_add_zinv_var g o')
  unfolding case_add_zinv_var
  add_zinv_var-Agree o o' h =
      let v = c.members o.gb o'.gb h.gb in
      rw (← v.infinity) (
        Agree-bind 0 (take_nonzero_fe-Agree f g c) refl λ z z' hz.
          Agree-if (f.ge_infinity o.gb == 0)
            (λ e.
              let finite : f.ge_infinity o.gb ≡ 0 = ground (arith, e) in
              Agree-call (traced (c.field.sqr 1 z z' (omega arith) hz.0)) λ z2 z2' h2.
                Agree-call
                  (traced (
                    c.field.mul 4 1 (f.ge_x o.gb) z2 (g.ge_x o'.gb) z2' (omega arith) (omega arith)
                      (v.x finite) h2.1.1))
                  λ x x' hx.
                    Agree-call
                      (traced (c.field.mul 1 1 z2 z z2' z' (omega arith) (omega arith) h2.1.1 hz.0))
                      λ z3 z3' h3.
                        Agree-call
                          (traced (
                            c.field.mul 3 1 (f.ge_y o.gb) z3 (g.ge_y o'.gb) z3' (omega arith)
                              (omega arith) (v.y finite) h3.1.1))
                          λ y y' hy.
                            Agree-call (traced (c.field.inv_var 1 z z' (omega arith) hz.0))
                              λ i i' hi.
                                let s : Scaled f = record {
                                  z = z;
                                  z2 = z2;
                                  z3 = z3;
                                  inv = i;
                                  x = x;
                                  y = y;
                                } in
                                let s' : Scaled g = record {
                                  z = z';
                                  z2 = z2';
                                  z3 = z3';
                                  inv = i';
                                  x = x';
                                  y = y';
                                } in
                                Agree-lift (
                                  c.gej_add_zinv_var o.a o.gb o'.a o'.gb s s' finite h.a h.gb
                                    (record {
                                      square = h2.0;
                                      x = hx.0;
                                      cube = h3.0;
                                      y = hy.0;
                                      inverse = hi.0;
                                    })
                                    (record {
                                      square = h2.1.0;
                                      x = hx.1.0;
                                      cube = h3.1.0;
                                      y = hy.1.0;
                                      inverse = hi.1.0;
                                    })
                                    hz.1))
            (λ e. Agree-lift (
              c.gej_add_zinv_var_infinity o.a o.gb o'.a o'.gb z z' h.a h.gb
                (λ z. ground (arith, e, z)) hz.0 hz.1)))
