-- ===== src/Ellswift/Contract.antt =====
-- What src/targets/ellswift.c relies on of libsecp for two builds at once: a call on valid objects
-- does not abort, and both builds get the same.
use diffsecp.Prelude.{
  ℕ, List, Option, some, Bool, true, false, ◌≡◌, ◌≤◌, ◌<◌, length, is_nonzero, if◌then◌else◌,
}
use diffsecp.Run.Agree.{Both, Shared}
use diffsecp.Run.Results.{Succeeds, Beside, SameBytes}
use diffsecp.Field.Contract.{FieldContract}
use diffsecp.Ellswift.Api.{EllswiftApi, HashFunction}

-- Two hash functions that write the same 32 bytes on this data.
abbrev pub SameHash : List ℕ → HashFunction → HashFunction → Type 0
SameHash extra h h' =
    (x a b : List ℕ)
    → length x ≡ 32
    → length a ≡ 64
    → length b ≡ 64
    → Both (Beside (SameBytes 32)) (h x a b extra) (h' x a b extra)

pub record EllswiftContract (f g : EllswiftApi) : Type 1 where
  pub field : FieldContract f.field g.field
  pub SamePubkey : f.Pubkey → g.Pubkey → Type 0
  -- The values are not zero, and are the x of a point.
  pub Nonzero : f.field.Fe → g.field.Fe → Type 0
  pub OnCurve : f.field.Fe → g.field.Fe → Type 0
  pub same_b : f.b ≡ g.b
  pub small_b : f.b < 0x8000
  pub set_int_one :
      Both (λ x y. field.Value 1 x y × Nonzero x y) (f.field.set_int 1) (g.field.set_int 1)
  pub normalizes_to_zero_var :
      (a : f.field.Fe) (a' : g.field.Fe)
      → field.Value 1 a a'
      → Shared
          (λ v. is_nonzero v ≡ false → Nonzero a a')
          (f.field.normalizes_to_zero_var a)
          (g.field.normalizes_to_zero_var a')
  -- The curve has no point with an x of 0.
  pub pubkey_load :
      (k : f.Pubkey) (k' : g.Pubkey)
      → SamePubkey k k'
      → Both
          (Beside (λ p q. field.Value 1 (f.x p) (g.x q) × Nonzero (f.x p) (g.x q)))
          (f.pubkey_load k)
          (g.pubkey_load k')
  pub pubkey_serialize :
      (k : f.Pubkey) (k' : g.Pubkey) (size : ℕ) (compressed : Bool)
      → (if compressed then 33 else 65) ≤ size
      → SamePubkey k k'
      → Shared
          (λ b. length b ≡ (if compressed then 33 else 65))
          (f.pubkey_serialize k size compressed)
          (g.pubkey_serialize k' size compressed)
  pub x_on_curve_var :
      (a : f.field.Fe) (a' : g.field.Fe)
      → field.Value 1 a a'
      → Shared (λ v. is_nonzero v ≡ true → OnCurve a a') (f.x_on_curve_var a) (g.x_on_curve_var a')
  pub xswiftec_inv_var :
      (a u : f.field.Fe) (a' u' : g.field.Fe) (c : ℕ)
      → field.Value 1 a a'
      → OnCurve a a'
      → field.Value 1 u u'
      → Nonzero u u'
      → c < 8
      → Both (Succeeds (field.Value 1)) (f.xswiftec_inv_var a u c) (g.xswiftec_inv_var a' u' c)
  -- Every encoding is one of a key.
  pub ellswift_decode :
      (ell : List ℕ)
      → length ell ≡ 64
      → Both (Beside SamePubkey) (f.ellswift_decode ell) (g.ellswift_decode ell)
  pub ellswift_encode :
      (k : f.Pubkey) (k' : g.Pubkey) (rnd : List ℕ)
      → SamePubkey k k'
      → length rnd ≡ 32
      → Both (Beside (SameBytes 64)) (f.ellswift_encode k rnd) (g.ellswift_encode k' rnd)
  pub ellswift_create :
      (seckey : List ℕ) (aux : Option (List ℕ))
      → length seckey ≡ 32
      → ((a : List ℕ) → aux ≡ some a → length a ≡ 32)
      → Both (Succeeds (SameBytes 64)) (f.ellswift_create seckey aux) (g.ellswift_create seckey aux)
  pub ellswift_xdh :
      (a b seckey : List ℕ) (party : ℕ) (h h' : HashFunction) (extra : List ℕ)
      → length a ≡ 64
      → length b ≡ 64
      → length seckey ≡ 32
      → party ≤ 1
      → SameHash extra h h'
      → Both
          (Succeeds (SameBytes 32))
          (f.ellswift_xdh a b seckey party h extra)
          (g.ellswift_xdh a b seckey party h' extra)
  pub xdh_hash_function_prefix :
      (extra : List ℕ)
      → length extra ≡ 64
      → SameHash extra f.xdh_hash_function_prefix g.xdh_hash_function_prefix
  pub xdh_hash_function_bip324 :
      (extra : List ℕ) → SameHash extra f.xdh_hash_function_bip324 g.xdh_hash_function_bip324
