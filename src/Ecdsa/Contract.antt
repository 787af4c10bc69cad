-- ===== src/Ecdsa/Contract.antt =====
-- What src/targets/ecdsa.c relies on of libsecp for two builds at once: a call on valid objects does
-- not abort, and both builds get the same.
use diffsecp.Prelude.{
  ℕ, ℤ, List, Option, some, Bool, true, false, ◌≡◌, ◌≤◌, length, is_nonzero, if◌then◌else◌,
}
use diffsecp.Run.Agree.{Both, Shared, Any}
use diffsecp.Run.Results.{Succeeds, Beside, SameBytes}
use diffsecp.Field.Contract.{FieldContract}
use diffsecp.Scalar.Contract.{ScalarContract}
use diffsecp.Ecdsa.Api.{EcdsaApi, NonceFunction, Nonce, default_nonce, rfc6979, custom}

-- Two nonce functions that return the same on the arguments that signing may give them.
abbrev pub SameNonceFunction : NonceFunction → NonceFunction → Type 0
SameNonceFunction n n' =
    (msg key : List ℕ) (algo : Option (List ℕ)) (counter : ℕ)
    → length msg ≡ 32
    → length key ≡ 32
    → Both (Succeeds (SameBytes 32)) (n msg key algo counter) (n' msg key algo counter)

abbrev pub IsExtra : Option (List ℕ) → Type 0
IsExtra o = (b : List ℕ) → o ≡ some b → length b ≡ 32

abbrev pub SameNonce : Nonce → Nonce → Type 0
SameNonce (default_nonce d) (default_nonce d') = (d ≡ d') × IsExtra d
SameNonce (rfc6979 d) (rfc6979 d') = (d ≡ d') × IsExtra d
SameNonce (custom n) (custom n') = SameNonceFunction n n'
SameNonce (default_nonce d) (rfc6979 d') = ⊥
SameNonce (default_nonce d) (custom n') = ⊥
SameNonce (rfc6979 d) (default_nonce d') = ⊥
SameNonce (rfc6979 d) (custom n') = ⊥
SameNonce (custom n) (default_nonce d') = ⊥
SameNonce (custom n) (rfc6979 d') = ⊥

-- What `serialize_der` writes and reports is the same, and as long as it says where it succeeds.
pub record SameDer (size : ℕ) (p q : ℤ × (List ℕ × ℕ)) : Type 0 where
  pub same_ret : p.0 ≡ q.0
  pub same_len : p.1.1 ≡ q.1.1
  pub same_der : is_nonzero p.0 ≡ true → p.1.0 ≡ q.1.0
  pub length_der : is_nonzero p.0 ≡ true → length p.1.0 ≡ p.1.1
  -- 72 bytes are always enough.
  pub small : p.1.1 ≤ 72
  pub enough : 72 ≤ size → is_nonzero p.0 ≡ true

pub record EcdsaContract (f g : EcdsaApi) : Type 1 where
  pub field : FieldContract f.field g.field
  pub scalar : ScalarContract f.scalar g.scalar
  pub SamePubkey : f.Pubkey → g.Pubkey → Type 0
  pub SameSignature : f.Signature → g.Signature → Type 0
  -- Points other than infinity; and points in Jacobian coordinates, with those of them that are not
  -- infinity.
  pub SameGe : f.Ge → g.Ge → Type 0
  pub SameGej : f.Gej → g.Gej → Type 0
  pub Finite : f.Gej → g.Gej → Type 0
  pub const_order_as_fe : field.Value 1 f.const_order_as_fe g.const_order_as_fe
  -- An element below the limit is in its canonical form.
  pub set_b32_limit :
      (b : List ℕ)
      → length b ≡ 32
      → Both (Succeeds field.Normal) (f.field.set_b32_limit b) (g.field.set_b32_limit b)
  pub pubkey_create :
      (k : List ℕ)
      → length k ≡ 32
      → Both (Succeeds SamePubkey) (f.pubkey_create k) (g.pubkey_create k)
  pub pubkey_parse : (b : List ℕ) → Both (Succeeds SamePubkey) (f.pubkey_parse b) (g.pubkey_parse b)
  pub pubkey_serialize :
      (k : f.Pubkey) (k' : g.Pubkey) (size : ℕ) (compressed : Bool)
      → (if compressed then 33 else 65) ≤ size
      → SamePubkey k k'
      → Shared
          (λ b. length b ≡ (if compressed then 33 else 65))
          (f.pubkey_serialize k size compressed)
          (g.pubkey_serialize k' size compressed)
  pub sign :
      (msg seckey : List ℕ) (n n' : Nonce)
      → length msg ≡ 32
      → length seckey ≡ 32
      → SameNonce n n'
      → Both (Succeeds SameSignature) (f.sign msg seckey n) (g.sign msg seckey n')
  pub nonce_function_rfc6979 :
      (msg key : List ℕ) (algo extra : Option (List ℕ)) (counter : ℕ)
      → length msg ≡ 32
      → length key ≡ 32
      → ((a : List ℕ) → algo ≡ some a → length a ≡ 16)
      → IsExtra extra
      → Both
          (Succeeds (SameBytes 32))
          (f.nonce_function_rfc6979 msg key algo extra counter)
          (g.nonce_function_rfc6979 msg key algo extra counter)
  pub normalize :
      (s : f.Signature) (s' : g.Signature)
      → SameSignature s s'
      → Both (Beside SameSignature) (f.normalize s) (g.normalize s')
  pub is_high :
      (s : f.Signature) (s' : g.Signature)
      → SameSignature s s'
      → Shared Any (f.is_high s) (g.is_high s')
  pub serialize_der :
      (s : f.Signature) (s' : g.Signature) (size : ℕ)
      → SameSignature s s'
      → Both (SameDer size) (f.serialize_der s size) (g.serialize_der s' size)
  pub serialize_compact :
      (s : f.Signature) (s' : g.Signature)
      → SameSignature s s'
      → Shared (λ b. length b ≡ 64) (f.serialize_compact s) (g.serialize_compact s')
  pub parse_compact :
      (b : List ℕ)
      → length b ≡ 64
      → Both (Succeeds SameSignature) (f.parse_compact b) (g.parse_compact b)
  pub parse_der : (b : List ℕ) → Both (Succeeds SameSignature) (f.parse_der b) (g.parse_der b)
  pub parse_der_lax :
      (b : List ℕ) → Both (Succeeds SameSignature) (f.parse_der_lax b) (g.parse_der_lax b)
  pub verify :
      (s : f.Signature) (s' : g.Signature) (msg : List ℕ) (k : f.Pubkey) (k' : g.Pubkey)
      → length msg ≡ 32
      → SameSignature s s'
      → SamePubkey k k'
      → Shared Any (f.verify s msg k) (g.verify s' msg k')
  pub ge_set_xo_var :
      (a : f.field.Fe) (a' : g.field.Fe) (odd : ℕ)
      → odd ≤ 1
      → field.Value 1 a a'
      → Both (Succeeds SameGe) (f.ge_set_xo_var a odd) (g.ge_set_xo_var a' odd)
  pub gej_set_infinity : Both SameGej f.gej_set_infinity g.gej_set_infinity
  pub gej_set_ge :
      (p : f.Ge) (p' : g.Ge) → SameGe p p' → Both SameGej (f.gej_set_ge p) (g.gej_set_ge p')
  pub ecmult :
      (p : f.Gej) (p' : g.Gej) (a b : f.scalar.Sc) (a' b' : g.scalar.Sc)
      → SameGej p p'
      → scalar.Value a a'
      → scalar.Value b b'
      → Both SameGej (f.ecmult p a b) (g.ecmult p' a' b')
  pub gej_is_infinity :
      (p : f.Gej) (p' : g.Gej)
      → SameGej p p'
      → Shared
          (λ v. is_nonzero v ≡ false → Finite p p')
          (f.gej_is_infinity p)
          (g.gej_is_infinity p')
  pub ge_set_gej :
      (p : f.Gej) (p' : g.Gej) → Finite p p' → Both SameGe (f.ge_set_gej p) (g.ge_set_gej p')
  pub pubkey_save :
      (p : f.Ge) (p' : g.Ge) → SameGe p p' → Both SamePubkey (f.pubkey_save p) (g.pubkey_save p')
