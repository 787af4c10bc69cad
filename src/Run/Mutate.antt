-- ===== src/Run/Mutate.antt =====
-- The mutations that the targets for signatures make of what they have built, as the input says.
use diffsecp.Prelude.{ℕ, zero, suc, ◌%◌, List, [], ◌∷◌, ◌≡◌, refl, ap, bit_xor, get_or, set, length}
use diffsecp.Run.{M, pure, ◌>>=◌, u8}
use diffsecp.Run.Agree.{Does, Agree-pure, Agree-step}
use diffsecp.Run.Steps.{Does-u8}

-- `b[i] ^= mask`
unfoldable pub xor_at : List ℕ → ℕ → ℕ → List ℕ
xor_at b i mask = set b i (bit_xor (get_or b i 0) mask)

-- `which`, `pos` and `mask` are read in turn, `which` among `kinds`, with the mutations left to go.
unfoldable pub mutations : {C : Type 0} → ℕ → (C → ℕ → ℕ → ℕ → C) → ℕ → C → M C
mutations kinds mutate zero c = pure c
mutations kinds mutate (suc left) c = do
  which ← u8
  place ← u8
  mask ← u8
  mutations kinds mutate left (mutate c (which % kinds) place mask)

length-set : (b : List ℕ) (i v : ℕ) → length (set b i v) ≡ length b
length-set [] i v = refl
length-set (x ∷ b) zero v = refl
length-set (x ∷ b) (suc i) v = ap suc (length-set b i v)

pub length-xor_at : (b : List ℕ) (i mask : ℕ) → length (xor_at b i mask) ≡ length b
unfolding xor_at
length-xor_at b i mask = length-set b i (bit_xor (get_or b i 0) mask)

-- What each mutation keeps, all keep.
pub Does-mutations :
    {C : Type 0} (P : C → Type 0) (kinds : ℕ) (mutate : C → ℕ → ℕ → ℕ → C)
    → ((c : C) (which place mask : ℕ) → P c → P (mutate c which place mask))
    → (left : ℕ) (c : C) → P c
    → Does 0 P (mutations kinds mutate left c)
unfolding mutations
Does-mutations P kinds mutate keeps zero c v = Agree-pure c c (refl, v)
Does-mutations P kinds mutate keeps (suc left) c v = Agree-step 0 Does-u8 refl λ which _.
    Agree-step 0 Does-u8 refl λ place _. Agree-step 0 Does-u8 refl λ mask _.
      Does-mutations P kinds mutate keeps left (mutate c (which % kinds) place mask)
        (keeps c (which % kinds) place mask v)
