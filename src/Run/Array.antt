-- ===== src/Run/Array.antt =====
-- A register file: an array that is only indexed in range, as a function of the index.
use diffsecp.Prelude.{ℕ, ◌==◌, if◌then◌else◌, Bool-cases, inl, inr}

abbrev pub Array : Type 0 → Type 0
Array A = ℕ → A

abbrev pub store : {A : Type 0} → Array A → ℕ → A → Array A
store reg i v j = if i == j then v else reg j

-- Storing related values keeps two register files related.
pub store_related :
    {A B : Type 0} (R : A → B → Type 0) {x : Array A} {y : Array B} (i : ℕ) {a : A} {b : B}
    → ((j : ℕ) → R (x j) (y j))
    → R a b
    → (j : ℕ) → R (store x i a j) (store y i b j)
store_related R i h r j = elim (Bool-cases (i == j)) [ inl e ↦ rw e r | inr e ↦ rw e (h j) ]
