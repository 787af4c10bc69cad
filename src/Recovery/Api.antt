-- ===== src/Recovery/Api.antt =====
-- The functions of libsecp that src/targets/recovery.c calls, which are not in this repository: a
-- parameter of the model, and what libsecp documents of them for two builds at once. A function
-- returns `none` where the illegal callback stops it, and what it writes otherwise, its `int` first.
use diffsecp.Prelude.{
  ℕ, ◌≤◌, ℤ, List, Option, some, Bool, true, ◌≡◌, length, is_nonzero, if◌then◌else◌,
}
use diffsecp.Run.Agree.{Both, Shared, Any}

pub record RecoveryApi : Type 1 where
  pub RecoverableSignature : Type 0
  pub Signature : Type 0
  pub Pubkey : Type 0
  -- The nonce's extra data is the last argument, where it is not `NULL`.
  pub sign_recoverable : List ℕ → List ℕ → Option (List ℕ) → Option (ℤ × RecoverableSignature)
  -- The 64 bytes and the recovery id.
  pub recoverable_serialize_compact : RecoverableSignature → Option (List ℕ × ℕ)
  pub recoverable_parse_compact : List ℕ → ℕ → Option (ℤ × RecoverableSignature)
  pub convert : RecoverableSignature → Option Signature
  pub serialize_compact : Signature → Option (List ℕ)
  pub recover : RecoverableSignature → List ℕ → Option (ℤ × Pubkey)
  -- With the size of the buffer, and whether the flag is `SECP256K1_EC_COMPRESSED`.
  pub pubkey_serialize : Pubkey → ℕ → Bool → Option (List ℕ)
  pub verify : Signature → List ℕ → Pubkey → Option ℤ
  pub normalize : Signature → Option (ℤ × Signature)

pub record RecoveryContract (f g : RecoveryApi) : Type 1 where
  -- The builds hold one recoverable signature, one signature, one key.
  pub SameRecoverable : f.RecoverableSignature → g.RecoverableSignature → Type 0
  pub SameSignature : f.Signature → g.Signature → Type 0
  pub SamePubkey : f.Pubkey → g.Pubkey → Type 0
  pub sign_recoverable :
      (msg seckey : List ℕ) (ndata : Option (List ℕ))
      → length msg ≡ 32
      → length seckey ≡ 32
      → ((d : List ℕ) → ndata ≡ some d → length d ≡ 32)
      → Both
          (λ p q. (p.0 ≡ q.0) × (is_nonzero p.0 ≡ true → SameRecoverable p.1 q.1))
          (f.sign_recoverable msg seckey ndata)
          (g.sign_recoverable msg seckey ndata)
  pub recoverable_serialize_compact :
      (s : f.RecoverableSignature) (s' : g.RecoverableSignature)
      → SameRecoverable s s'
      → Shared
          (λ p. (length p.0 ≡ 64) × (p.1 ≤ 3))
          (f.recoverable_serialize_compact s)
          (g.recoverable_serialize_compact s')
  pub recoverable_parse_compact :
      (sig64 : List ℕ) (recid : ℕ)
      → length sig64 ≡ 64
      → recid ≤ 3
      → Both
          (λ p q. (p.0 ≡ q.0) × (is_nonzero p.0 ≡ true → SameRecoverable p.1 q.1))
          (f.recoverable_parse_compact sig64 recid)
          (g.recoverable_parse_compact sig64 recid)
  pub convert :
      (s : f.RecoverableSignature) (s' : g.RecoverableSignature)
      → SameRecoverable s s'
      → Both SameSignature (f.convert s) (g.convert s')
  pub serialize_compact :
      (s : f.Signature) (s' : g.Signature)
      → SameSignature s s'
      → Shared (λ b. length b ≡ 64) (f.serialize_compact s) (g.serialize_compact s')
  pub recover :
      (s : f.RecoverableSignature) (s' : g.RecoverableSignature) (msg : List ℕ)
      → length msg ≡ 32
      → SameRecoverable s s'
      → Both
          (λ p q. (p.0 ≡ q.0) × (is_nonzero p.0 ≡ true → SamePubkey p.1 q.1))
          (f.recover s msg)
          (g.recover s' msg)
  pub pubkey_serialize :
      (k : f.Pubkey) (k' : g.Pubkey) (size : ℕ) (compressed : Bool)
      → (if compressed then 33 else 65) ≤ size
      → SamePubkey k k'
      → Shared
          (λ b. length b ≡ (if compressed then 33 else 65))
          (f.pubkey_serialize k size compressed)
          (g.pubkey_serialize k' size compressed)
  pub verify :
      (s : f.Signature) (s' : g.Signature) (msg : List ℕ) (k : f.Pubkey) (k' : g.Pubkey)
      → length msg ≡ 32
      → SameSignature s s'
      → SamePubkey k k'
      → Shared Any (f.verify s msg k) (g.verify s' msg k')
  pub normalize :
      (s : f.Signature) (s' : g.Signature)
      → SameSignature s s'
      → Both (λ p q. (p.0 ≡ q.0) × SameSignature p.1 q.1) (f.normalize s) (g.normalize s')
