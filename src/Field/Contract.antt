-- ===== src/Field/Contract.antt =====
-- What src/targets/field.c relies on of libsecp's field module, as its headers document it, for
-- two builds at once: within the documented bounds on magnitudes a call does not abort, results
-- have the documented magnitudes, and both builds compute the same value.
use diffsecp.Prelude.{
  ℕ, ◌+◌, ◌*◌, ◌/◌, ◌<◌, ◌≤◌, List, ◌≡◌, length, is_nonzero, ◌==◌, true, if◌then◌else◌,
}
use diffsecp.Run.Agree.{Both, Shared, Any}
use diffsecp.Field.Api.{FieldApi}

pub record FieldContract (f g : FieldApi) : Type 1 where
  -- `Value m x y`: the builds hold one value as `x` and `y`, of magnitude at most `m`.
  pub Value : ℕ → f.Fe → g.Fe → Type 0
  -- They hold one value in its canonical form.
  pub Normal : f.Fe → g.Fe → Type 0
  pub Stored : f.Storage → g.Storage → Type 0
  pub normal_value : (x : f.Fe) (y : g.Fe) → Normal x y → Value 1 x y
  pub set_int_zero : Both (Value 0) (f.set_int 0) (g.set_int 0)
  pub set_b32_mod :
      (b : List ℕ) → length b ≡ 32 → Both (Value 1) (f.set_b32_mod b) (g.set_b32_mod b)
  -- The element is valid only where the result is not 0.
  pub set_b32_limit :
      (b : List ℕ)
      → length b ≡ 32
      → Both
          (λ p q. (p.0 ≡ q.0) × (is_nonzero p.0 ≡ true → Value 1 p.1 q.1))
          (f.set_b32_limit b)
          (g.set_b32_limit b)
  pub add :
      (m n : ℕ) (r a : f.Fe) (r' a' : g.Fe)
      → m + n ≤ 32
      → Value m r r'
      → Value n a a'
      → Both (Value (m + n)) (f.add r a) (g.add r' a')
  pub add_int :
      (m k : ℕ) (r : f.Fe) (r' : g.Fe)
      → m ≤ 31
      → k < 0x8000
      → Value m r r'
      → Both (Value (m + 1)) (f.add_int r k) (g.add_int r' k)
  pub mul :
      (m n : ℕ) (a b : f.Fe) (a' b' : g.Fe)
      → m ≤ 8
      → n ≤ 8
      → Value m a a'
      → Value n b b'
      → Both (Value 1) (f.mul a b) (g.mul a' b')
  pub sqr :
      (m : ℕ) (a : f.Fe) (a' : g.Fe) → m ≤ 8 → Value m a a' → Both (Value 1) (f.sqr a) (g.sqr a')
  -- `k` is at least the magnitude.
  pub negate_unchecked :
      (m k : ℕ) (a : f.Fe) (a' : g.Fe)
      → m ≤ k
      → k ≤ 31
      → Value m a a'
      → Both (Value (k + 1)) (f.negate_unchecked a k) (g.negate_unchecked a' k)
  pub mul_int_unchecked :
      (m k : ℕ) (r : f.Fe) (r' : g.Fe)
      → k ≤ 32
      → k * m ≤ 32
      → Value m r r'
      → Both (Value (m * k)) (f.mul_int_unchecked r k) (g.mul_int_unchecked r' k)
  pub half :
      (m : ℕ) (r : f.Fe) (r' : g.Fe)
      → m ≤ 31
      → Value m r r'
      → Both (Value (m / 2 + 1)) (f.half r) (g.half r')
  pub normalize :
      (m : ℕ) (r : f.Fe) (r' : g.Fe)
      → m ≤ 32
      → Value m r r'
      → Both Normal (f.normalize r) (g.normalize r')
  pub normalize_weak :
      (m : ℕ) (r : f.Fe) (r' : g.Fe)
      → m ≤ 32
      → Value m r r'
      → Both (Value 1) (f.normalize_weak r) (g.normalize_weak r')
  pub normalize_var :
      (m : ℕ) (r : f.Fe) (r' : g.Fe)
      → m ≤ 32
      → Value m r r'
      → Both Normal (f.normalize_var r) (g.normalize_var r')
  -- The inverse has magnitude 0 where its argument has, and 1 otherwise.
  pub inv :
      (m : ℕ) (a : f.Fe) (a' : g.Fe)
      → m ≤ 32
      → Value m a a'
      → Both (Value (if m == 0 then 0 else 1)) (f.inv a) (g.inv a')
  pub inv_var :
      (m : ℕ) (a : f.Fe) (a' : g.Fe)
      → m ≤ 32
      → Value m a a'
      → Both (Value (if m == 0 then 0 else 1)) (f.inv_var a) (g.inv_var a')
  pub sqrt :
      (m : ℕ) (a : f.Fe) (a' : g.Fe)
      → m ≤ 8
      → Value m a a'
      → Both (λ p q. (p.0 ≡ q.0) × Value 1 p.1 q.1) (f.sqrt a) (g.sqrt a')
  pub cmov :
      (m n k flag : ℕ) (r a : f.Fe) (r' a' : g.Fe)
      → m ≤ k
      → n ≤ k
      → k ≤ 32
      → flag ≤ 1
      → Value m r r'
      → Value n a a'
      → Both (Value k) (f.cmov r a flag) (g.cmov r' a' flag)
  pub to_storage :
      (a : f.Fe) (a' : g.Fe) → Normal a a' → Both Stored (f.to_storage a) (g.to_storage a')
  pub from_storage :
      (s : f.Storage) (s' : g.Storage)
      → Stored s s'
      → Both Normal (f.from_storage s) (g.from_storage s')
  pub get_b32 :
      (a : f.Fe) (a' : g.Fe)
      → Normal a a'
      → Shared (λ b. length b ≡ 32) (f.get_b32 a) (g.get_b32 a')
  pub normalizes_to_zero :
      (m : ℕ) (a : f.Fe) (a' : g.Fe)
      → m ≤ 32
      → Value m a a'
      → Shared Any (f.normalizes_to_zero a) (g.normalizes_to_zero a')
  pub normalizes_to_zero_var :
      (m : ℕ) (a : f.Fe) (a' : g.Fe)
      → m ≤ 32
      → Value m a a'
      → Shared Any (f.normalizes_to_zero_var a) (g.normalizes_to_zero_var a')
  pub is_square_var :
      (m : ℕ) (a : f.Fe) (a' : g.Fe)
      → m ≤ 32
      → Value m a a'
      → Shared Any (f.is_square_var a) (g.is_square_var a')
  pub equal :
      (m n : ℕ) (a b : f.Fe) (a' b' : g.Fe)
      → m ≤ 1
      → n ≤ 31
      → Value m a a'
      → Value n b b'
      → Shared Any (f.equal a b) (g.equal a' b')
  pub is_zero : (a : f.Fe) (a' : g.Fe) → Normal a a' → Shared Any (f.is_zero a) (g.is_zero a')
  pub is_odd : (a : f.Fe) (a' : g.Fe) → Normal a a' → Shared Any (f.is_odd a) (g.is_odd a')
  pub cmp_var :
      (a b : f.Fe) (a' b' : g.Fe)
      → Normal a a'
      → Normal b b'
      → Shared Any (f.cmp_var a b) (g.cmp_var a' b')
