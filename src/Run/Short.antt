-- ===== src/Run/Short.antt =====
-- The logic of `Run/Agree` where the input is not longer than a bound, for a target that asks how much
-- of it is left.
use diffsecp.Prelude.{ℕ, ◌+◌, ◌-◌, ◌≤◌, ◌≡◌, List, true, leb, leb→le, subst, ap, sym, arith}
use diffsecp.Run.{World, M, ◌>>=◌, input_left, run_target}
use diffsecp.Run.Agree.{Agree, Does, Ends, Ends-bind, Twins}
use diffsecp.Run.Whole.{IsCall, SameTranscript, Ends-SameTranscript, start, start-Twins}

pub record AgreeShort {A B : Type 0} (max n : ℕ) (Q : A → B → Type 0) (m : M A) (m' : M B)
    : Type 0 where
  pub at :
      (w w' : World)
      → Twins w w'
      → w.r.left ≤ max
      → w.t.len + n ≤ w.t.cap
      → Ends n Q w (m w) (m' w')

pub Agree-AgreeShort :
    {A B : Type 0} {max n : ℕ} {Q : A → B → Type 0} {m : M A} {m' : M B}
    → Agree n Q m m'
    → AgreeShort max n Q m m'
Agree-AgreeShort h = record { at = λ w w' v short room. h.at w w' v room }

pub AgreeShort-bind :
    {A B C D : Type 0} {P : A → B → Type 0} {Q : C → D → Type 0} {f : A → M C} {g : B → M D} (n : ℕ)
    {max N : ℕ} {m : M A} {m' : M B}
    → AgreeShort max n P m m'
    → leb n N ≡ true
    → ((a : A) (b : B) → P a b → AgreeShort max (N - n) Q (f a) (g b))
    → AgreeShort max N Q (m >>= f) (m' >>= g)
AgreeShort-bind {f} {g} n {N} {m} {m'} first fits rest =
    let within : n ≤ N = leb→le n N fits in
    record {
      at = λ w w' v short room.
          let e = first.at w w' v short (omega arith) in
          Ends-bind m m' f g n (N - n) (omega arith) e (
            (rest e.a e.b e.related).at e.after e.after' e.twins (omega (arith, e.shrinks))
              (omega (arith, e.written, e.kept_cap)));
    }

pub AgreeShort-step :
    {A C D : Type 0} {P : A → Type 0} {Q : C → D → Type 0} {f : A → M C} {g : A → M D} (n : ℕ)
    {max N : ℕ} {m : M A}
    → Does n P m
    → leb n N ≡ true
    → ((a : A) → P a → AgreeShort max (N - n) Q (f a) (g a))
    → AgreeShort max N Q (m >>= f) (m >>= g)
AgreeShort-step {Q} {f} {g} n {max} {N} d fits rest =
    AgreeShort-bind n (Agree-AgreeShort d) fits
      (λ a b r. subst (λ x. AgreeShort max (N - n) Q (f a) (g x)) r.0 (rest a r.1))

-- What is left of the input is within the bound.
pub AgreeShort-left :
    {C D : Type 0} {Q : C → D → Type 0} {f : ℕ → M C} {g : ℕ → M D} {max N : ℕ}
    → ((k : ℕ) → k ≤ max → Agree N Q (f k) (g k))
    → AgreeShort max N Q (input_left >>= f) (input_left >>= g)
unfolding input_left
AgreeShort-left {Q} {f} {g} {N} rest = record {
  at = λ w w' v short room.
      subst (λ k. Ends N Q w (f w.r.left w) (g k w')) (ap (λ r. r.left) (sym v.same_reader))
        ((rest w.r.left short).at w w' v room);
}

pub run_target-AgreeShort :
    (max n : ℕ) (m m' : M (Unit {0})) (input : List ℕ) (len : ℕ) (out out' : List ℕ) (size : ℕ)
    → AgreeShort max n (λ _ _. Unit {0}) m m'
    → len ≤ max
    → n ≤ size
    → IsCall input len out size
    → IsCall input len out' size
    → SameTranscript n (run_target m input len out size) (run_target m' input len out' size)
run_target-AgreeShort max n m m' input len out out' size h short fits call call' =
    Ends-SameTranscript n m m' input len out out' size (
      h.at (start input len out size) (start input len out' size)
        (start-Twins input len out out' size call call') (unfold start in omega arith)
        (unfold start in omega arith))
