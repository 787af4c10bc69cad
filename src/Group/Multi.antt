-- ===== src/Group/Multi.antt =====
-- The multi-point multiplication of the group target over two builds.
use diffsecp.Prelude.{
  ℕ, ◌*◌, ◌/◌, ◌%◌, ◌^◌, ◌<◌, ◌≤◌, ℤ, Option, some, none, ◌≡◌, refl, arith, Bool, true, false,
  is_nonzero, ◌==◌, if◌then◌else◌, has_flag, ◌&&◌,
}
use diffsecp.Run.Agree.{Agree, Does, Both, Agree-pure, Agree-call, Agree-step, Agree-if, Agree-bind}
use diffsecp.Run.Steps.{Does-u8, Does-u16}
use diffsecp.Run.Results.{SameOption}
use diffsecp.Group.Api.{GroupApi}
use diffsecp.Group.Contract.{GroupContract}
use diffsecp.Group.Target.{
  GroupMulti, group_multi_callback, fails_at, and_then, group_regs, group_scratch_size,
  group_large_max,
}
use diffsecp.Group.Machine.{
  multi_count, MultiPlan, multi_plan, multi_operand, multi_fail_at, four, given_unless,
  group_ecmult_multi,
}
use diffsecp.Group.Points.{take_scalar-Agree, affine-Agree}

-- At most 16384 points.
Does-multi_count :
    (flags : ℕ) (large : Bool) → Does 0 (λ n. n.0 ≤ group_large_max) (multi_count flags large)
unfolding multi_count
Does-multi_count flags large =
    Agree-if (has_flag flags 8 && large)
      (λ _. Agree-step 0 Does-u16 refl λ v _. Agree-pure _ _ (refl, omega arith))
      (λ _. Agree-step 0 Does-u8 refl λ n l. Agree-pure _ _ (refl, omega (arith, l)))

Does-fail_at : (flags : ℕ) → Does 0 (λ _. Unit {0}) (multi_fail_at flags)
unfolding multi_fail_at
Does-fail_at flags =
    Agree-if (has_flag flags 4) (λ _. Agree-step 0 Does-u8 refl λ i _. Agree-pure _ _ (refl, tt))
      (λ _. Agree-pure _ _ (refl, tt))

four_related :
    {A B : Type 0} (R : A → B → Type 0) {a b d e : A} {a' b' d' e' : B}
    → R a a'
    → R b b'
    → R d d'
    → R e e'
    → (i : ℕ) → R (four a b d e i) (four a' b' d' e' i)
four_related {A} {B} R {a} {b} {d} {e} {a'} {b'} {d'} {e'} ra rb rd re i =
    by_index (i == 0) (i == 1) (i == 2)
  where
    by_index :
        (x y z : Bool)
        → R
            (if x then a else if y then b else if z then d else e)
            (if x then a' else if y then b' else if z then d' else e')
    by_index true y z = ra
    by_index false true z = rb
    by_index false false true = rd
    by_index false false false = re

module _ (f g : GroupApi) (c : GroupContract f g) where
  -- `Both` for a sequence of calls.
  both-and_then :
      {A B C D : Type 0} {R : A → B → Type 0} {S : C → D → Type 0} {o : Option A} {o' : Option B}
      {k : A → Option C} {k' : B → Option D}
      → Both R o o'
      → ((a : A) (b : B) → R a b → Both S (k a) (k' b))
      → Both S (and_then o k) (and_then o' k')
  both-and_then (a, b, e, e', r) rest = rw (e, e') (rest a b r)

  abbrev SamePoint : f.scalar.Sc × f.Ge → g.scalar.Sc × g.Ge → Type 0
  SamePoint p q = c.scalar.Value p.0 q.0 × c.SameGe p.1 q.1

  record SameMulti (m : GroupMulti f) (m' : GroupMulti g) : Type 0 where
    sc : (i : ℕ) → c.scalar.Value (m.sc i) (m'.sc i)
    pt : (i : ℕ) → c.SameGe (m.pt i) (m'.pt i)
    step : c.scalar.Value m.step m'.step
    fail_at : m.fail_at ≡ m'.fail_at

  callback-both :
      (m : GroupMulti f) (m' : GroupMulti g) (idx : ℕ)
      → SameMulti m m'
      → idx < 2 ^ 32
      → Both (SameOption SamePoint) (group_multi_callback f m idx) (group_multi_callback g m' idx)
  unfolding group_multi_callback
  callback-both m m' idx h l = rw (← h.fail_at) (by_failure (fails_at f m.fail_at idx))
    where
      sums :
          Both
            (SameOption SamePoint)
            (and_then (f.scalar.set_int (idx / group_regs)) λ k.
              and_then (f.scalar.mul k m.step) λ part.
                and_then
                  (f.scalar.add (m.sc (idx % group_regs)) part)
                  λ sum. some (some (sum.1, m.pt (idx % group_regs))))
            (and_then (g.scalar.set_int (idx / group_regs)) λ k.
              and_then (g.scalar.mul k m'.step) λ part.
                and_then
                  (g.scalar.add (m'.sc (idx % group_regs)) part)
                  λ sum. some (some (sum.1, m'.pt (idx % group_regs))))
      sums = both-and_then (c.scalar_set_int (idx / group_regs) (omega (arith, l))) λ k k' hk.
          both-and_then (c.scalar.mul k m.step k' m'.step hk h.step) λ p p' hp.
            both-and_then (c.scalar.add _ p _ p' (h.sc (idx % group_regs)) hp)
              λ s s' hs. (_, _, refl, refl, (hs.1, h.pt (idx % group_regs)))

      by_failure :
          (b : Bool)
          → Both
              (SameOption SamePoint)
              (if b
                then some none
                else and_then (f.scalar.set_int (idx / group_regs)) λ k.
                  and_then (f.scalar.mul k m.step) λ part.
                    and_then
                      (f.scalar.add (m.sc (idx % group_regs)) part)
                      λ sum. some (some (sum.1, m.pt (idx % group_regs))))
              (if b
                then some none
                else and_then (g.scalar.set_int (idx / group_regs)) λ k.
                  and_then (g.scalar.mul k m'.step) λ part.
                    and_then
                      (g.scalar.add (m'.sc (idx % group_regs)) part)
                      λ sum. some (some (sum.1, m'.pt (idx % group_regs))))
      by_failure true = (_, _, refl, refl, tt)
      by_failure false = sums

  record SamePlan (p : MultiPlan f) (q : MultiPlan g) : Type 0 where
    count : p.count ≡ q.count
    few : p.count ≤ group_large_max
    scratch : SameOption c.SameScratch p.scratch q.scratch
    step : c.scalar.Value p.step q.step
    large : p.large ≡ q.large

  plan-Agree :
      (flags : ℕ) (large : Bool) (s : f.scalar.Sc) (s' : g.scalar.Sc)
      → c.scalar.Value s s'
      → Agree 0 SamePlan (multi_plan f flags large s) (multi_plan g flags large s')
  unfolding multi_plan
  plan-Agree flags large s s' h =
      Agree-if (has_flag flags 2)
        (λ _. Agree-step 0 (Does-multi_count flags large) refl λ n few.
          Agree-bind 0 (take_scalar-Agree f g c) refl λ t t' ht. Agree-step 0 Does-u16 refl λ v _.
            Agree-call (c.scratch_space_create (group_scratch_size v * 2 ^ n.1.0)) λ k k' hk.
              Agree-pure _ _
                (record { count = refl; few = few; scratch = hk; step = ht; large = refl }))
        (λ _.
          Agree-pure _ _
            (record { count = refl; few = omega arith; scratch = tt; step = h; large = refl }))

  operand-Agree :
      (r : ℕ → f.Gej) (r' : ℕ → g.Gej) (j : ℕ)
      → ((i : ℕ) → c.SameGej (r i) (r' i))
      → Agree 0 SamePoint (multi_operand f r j) (multi_operand g r' j)
  unfolding multi_operand
  operand-Agree r r' j h = Agree-bind 0 (take_scalar-Agree f g c) refl λ s s' hs.
      Agree-bind 0 (affine-Agree f g c (r j) (r' j) (h j)) refl λ p p' hp. Agree-pure _ _ (hs, hp)

  pub given_unless_same :
      (b : Bool) (s : f.scalar.Sc) (s' : g.scalar.Sc)
      → c.scalar.Value s s'
      → SameOption c.scalar.Value (given_unless f b s) (given_unless g b s')
  given_unless_same true s s' h = tt
  given_unless_same false s s' h = h

  -- The result, the point and the budget for large inputs.
  abbrev SameMultiResult : ℤ × (f.Gej × Bool) → ℤ × (g.Gej × Bool) → Type 0
  SameMultiResult p q = (p.0 ≡ q.0) × (c.SameGej p.1.0 q.1.0 × (p.1.1 ≡ q.1.1))

  pub ecmult_multi-Agree :
      (r : ℕ → f.Gej) (r' : ℕ → g.Gej) (large : Bool)
      → ((i : ℕ) → c.SameGej (r i) (r' i))
      → Agree 0 SameMultiResult (group_ecmult_multi f r large) (group_ecmult_multi g r' large)
  unfolding group_ecmult_multi
  ecmult_multi-Agree r r' large h = Agree-bind 0 (take_scalar-Agree f g c) refl λ ng ng' hng.
      Agree-step 0 Does-u8 refl λ flags _. Agree-bind 0 (operand-Agree r r' 0 h) refl λ a a' ha.
        Agree-bind 0 (operand-Agree r r' 1 h) refl λ b b' hb.
          Agree-bind 0 (operand-Agree r r' 2 h) refl λ d d' hd.
            Agree-bind 0 (operand-Agree r r' 3 h) refl λ e e' he.
              Agree-call c.scalar.set_int_zero λ z z' hz.
                Agree-bind 0 (plan-Agree flags large z z' hz) refl λ p p' hp.
                  rw (← hp.count, ← hp.large)
                    (Agree-step 0 (Does-fail_at flags) refl λ fail_at _.
                      Agree-call
                        (c.ecmult_multi_var p.scratch p'.scratch _ _ _ _ p.count hp.scratch
                          (given_unless_same (has_flag flags 1) ng ng' hng)
                          (λ i l.
                            callback-both _ _ i
                              (record {
                                sc = four_related c.scalar.Value ha.0 hb.0 hd.0 he.0;
                                pt = four_related c.SameGe ha.1 hb.1 hd.1 he.1;
                                step = hp.step;
                                fail_at = refl;
                              })
                              (omega (arith, l, hp.few))))
                        λ s s' hs. rw (← hs.0) (
                          Agree-call (c.scratch_space_destroy p.scratch p'.scratch hp.scratch)
                            λ _ _ _.
                              Agree-if (is_nonzero s.0)
                                (λ ok. Agree-pure _ _ (refl, (hs.1 ok, refl)))
                                (λ _.
                                  Agree-call c.gej_set_infinity
                                    λ i i' hi. Agree-pure _ _ (refl, (hi, refl)))))
