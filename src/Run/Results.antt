-- ===== src/Run/Results.antt =====
-- How the results of one call of libsecp are related in two builds.
use diffsecp.Prelude.{
  ℕ, ℤ, List, [], ◌∷◌, Option, none, some, true, false, ◌≡◌, sym, ◌∙◌, Bool-cases, inl, inr, length,
  is_nonzero,
}
use mathlib.Core.Option.{some-injective}
use diffsecp.Run.Agree.{Both}

-- The lists are equally long, and related in each place.
abbrev pub Pairwise : {A B : Type 0} → (A → B → Type 0) → List A → List B → Type 0
Pairwise R [] [] = Unit
Pairwise R [] (y ∷ ys) = ⊥
Pairwise R (x ∷ xs) [] = ⊥
Pairwise R (x ∷ xs) (y ∷ ys) = R x y × Pairwise R xs ys

-- A call's `int`, and what it leaves where that is not 0.
abbrev pub Succeeds : {A B : Type 0} → (A → B → Type 0) → ℤ × A → ℤ × B → Type 0
Succeeds R p q = (p.0 ≡ q.0) × (is_nonzero p.0 ≡ true → R p.1 q.1)

-- What a call leaves where its `int` is 0.
abbrev pub Fails : {A B : Type 0} → (A → B → Type 0) → ℤ × A → ℤ × B → Type 0
Fails R p q = is_nonzero p.0 ≡ false → R p.1 q.1

-- A call's `int`, or a parity, and what it leaves in any case.
abbrev pub Beside : {A B C : Type 0} → (A → B → Type 0) → C × A → C × B → Type 0
Beside R p q = (p.0 ≡ q.0) × R p.1 q.1

abbrev pub SameBytes : ℕ → List ℕ → List ℕ → Type 0
SameBytes n b b' = (b ≡ b') × (length b ≡ n)

-- A value that may be missing, in two builds.
abbrev pub SameOption : {A B : Type 0} → (A → B → Type 0) → Option A → Option B → Type 0
SameOption R none none = Unit
SameOption R (some a) (some b) = R a b
SameOption R none (some b) = ⊥
SameOption R (some a) none = ⊥

-- A call of which both its success and its failure leave the same.
pub Both-Beside :
    {A B : Type 0} (R : A → B → Type 0) {o : Option (ℤ × A)} {o' : Option (ℤ × B)}
    → Both (Succeeds R) o o'
    → Both (Fails R) o o'
    → Both (Beside R) o o'
Both-Beside R (a, b, e, e', r) (x, y, ex, ey, failed) =
    let same_left : x ≡ a = some-injective x a (sym ex ∙ e) in
    let same_right : y ≡ b = some-injective y b (sym ey ∙ e') in
    let fails : Fails R a b = rw (← same_left, ← same_right) failed in
    (
      a,
      b,
      e,
      e',
      (r.0, elim (Bool-cases (is_nonzero a.0)) [ inl ok ↦ r.1 ok | inr not_ok ↦ fails not_ok ]),
    )
