-- ===== src/Schnorrsig/Contract.antt =====
-- What src/targets/schnorrsig.c relies on of libsecp for two builds at once. `SchnorrsigContract` is
-- what libsecp documents: a call on valid objects does not abort, and both builds get the same `int`
-- and, where it is not 0, the same of what the call writes. `FailsAlike` is what libsecp does not
-- document and the target relies on all the same.
use diffsecp.Prelude.{ℕ, List, Option, none, some, ◌≡◌, ◌≤◌, length}
use diffsecp.Run.Agree.{Both, Shared, Any}
use diffsecp.Run.Results.{Succeeds, Fails, Beside, SameBytes}
use diffsecp.Schnorrsig.Api.{SchnorrsigApi, NonceFunction, ExtraParams}

-- Two nonce functions that return the same on the arguments that signing may give them.
abbrev pub SameNonce : NonceFunction → NonceFunction → Type 0
SameNonce n n' =
    (msg key pk algo ndata : List ℕ)
    → length key ≡ 32
    → length pk ≡ 32
    → length ndata ≡ 32
    → Both (Succeeds (SameBytes 32)) (n msg key pk algo ndata) (n' msg key pk algo ndata)

abbrev pub SameNoncefp : Option NonceFunction → Option NonceFunction → Type 0
SameNoncefp none none = Unit
SameNoncefp (some n) (some n') = SameNonce n n'
SameNoncefp (some n) none = ⊥
SameNoncefp none (some n') = ⊥

abbrev pub SameExtra : Option ExtraParams → Option ExtraParams → Type 0
SameExtra none none = Unit
SameExtra (some e) (some e') = SameNoncefp e.noncefp e'.noncefp × SameBytes 32 e.ndata e'.ndata
SameExtra (some e) none = ⊥
SameExtra none (some e') = ⊥

pub record SchnorrsigContract (f g : SchnorrsigApi) : Type 1 where
  pub SameKeypair : f.Keypair → g.Keypair → Type 0
  pub SameXonly : f.Xonly → g.Xonly → Type 0
  pub SamePubkey : f.Pubkey → g.Pubkey → Type 0
  -- The bytes pass `secp256k1_ec_seckey_verify`.
  pub IsKey : List ℕ → Type 0
  pub keypair_create :
      (k : List ℕ)
      → length k ≡ 32
      → Both (Succeeds SameKeypair) (f.keypair_create k) (g.keypair_create k)
  -- It returns 1 always; a key pair's secret key is valid.
  pub keypair_sec :
      (k : f.Keypair) (k' : g.Keypair)
      → SameKeypair k k'
      → Both (Beside (λ b b'. SameBytes 32 b b' × IsKey b)) (f.keypair_sec k) (g.keypair_sec k')
  pub keypair_xonly_pub :
      (k : f.Keypair) (k' : g.Keypair)
      → SameKeypair k k'
      → Both (Beside SameXonly) (f.keypair_xonly_pub k) (g.keypair_xonly_pub k')
  pub seckey_negate :
      (k : List ℕ)
      → length k ≡ 32
      → Both (Succeeds (SameBytes 32)) (f.seckey_negate k) (g.seckey_negate k)
  -- It fails for an invalid key only, and the negated key is valid.
  pub seckey_negate_key :
      (k : List ℕ)
      → length k ≡ 32
      → IsKey k
      → Both (Beside (λ b b'. SameBytes 32 b b' × IsKey b)) (f.seckey_negate k) (g.seckey_negate k)
  pub seckey_tweak_mul :
      (k t : List ℕ)
      → length k ≡ 32
      → length t ≡ 32
      → Both (Succeeds (SameBytes 32)) (f.seckey_tweak_mul k t) (g.seckey_tweak_mul k t)
  pub seckey_tweak_add :
      (k t : List ℕ)
      → length k ≡ 32
      → length t ≡ 32
      → Both (Succeeds (SameBytes 32)) (f.seckey_tweak_add k t) (g.seckey_tweak_add k t)
  pub tagged_sha256 :
      (tag msg : List ℕ)
      → Both (Succeeds (SameBytes 32)) (f.tagged_sha256 tag msg) (g.tagged_sha256 tag msg)
  pub xonly_parse :
      (b : List ℕ) → length b ≡ 32 → Both (Succeeds SameXonly) (f.xonly_parse b) (g.xonly_parse b)
  pub xonly_serialize :
      (x : f.Xonly) (y : g.Xonly)
      → SameXonly x y
      → Shared (λ b. length b ≡ 32) (f.xonly_serialize x) (g.xonly_serialize y)
  pub xonly_tweak_add :
      (t : List ℕ) (x : f.Xonly) (y : g.Xonly)
      → length t ≡ 32
      → SameXonly x y
      → Both (Succeeds SamePubkey) (f.xonly_tweak_add x t) (g.xonly_tweak_add y t)
  pub xonly_tweak_add_check :
      (b t : List ℕ) (parity : ℕ) (x : f.Xonly) (y : g.Xonly)
      → length b ≡ 32
      → length t ≡ 32
      → parity ≤ 1
      → SameXonly x y
      → Shared Any (f.xonly_tweak_add_check b parity x t) (g.xonly_tweak_add_check b parity y t)
  pub xonly_from_pubkey :
      (p : f.Pubkey) (q : g.Pubkey)
      → SamePubkey p q
      → Both
          (Succeeds (λ x y. (x.0 ≤ 1) × Beside SameXonly x y))
          (f.xonly_from_pubkey p)
          (g.xonly_from_pubkey q)
  pub sign32 :
      (msg : List ℕ) (k : f.Keypair) (k' : g.Keypair) (aux : Option (List ℕ))
      → length msg ≡ 32
      → ((a : List ℕ) → aux ≡ some a → length a ≡ 32)
      → SameKeypair k k'
      → Both (Succeeds (SameBytes 64)) (f.sign32 msg k aux) (g.sign32 msg k' aux)
  pub sign_custom :
      (msg : List ℕ) (k : f.Keypair) (k' : g.Keypair) (e e' : Option ExtraParams)
      → SameKeypair k k'
      → SameExtra e e'
      → Both (Succeeds (SameBytes 64)) (f.sign_custom msg k e) (g.sign_custom msg k' e')
  pub verify :
      (sig msg : List ℕ) (x : f.Xonly) (y : g.Xonly)
      → length sig ≡ 64
      → SameXonly x y
      → Shared Any (f.verify sig msg x) (g.verify sig msg y)
  pub nonce_function_bip340 :
      (msg key pk : List ℕ) (algo : Option (List ℕ))
      → length key ≡ 32
      → length pk ≡ 32
      → Both
          (Succeeds (SameBytes 32))
          (f.nonce_function_bip340 msg key pk algo)
          (g.nonce_function_bip340 msg key pk algo)

-- What libsecp does not document: it leaves "some unspecified value" in the key of a failed
-- `seckey_tweak_mul`, which fails for a challenge of 0 or from the group order on, and says nothing of
-- the signature of a failed `schnorrsig_sign32`. The target records both, so that two builds which
-- leave different bytes there make it report a divergence.
pub record FailsAlike (f g : SchnorrsigApi) (c : SchnorrsigContract f g) : Type 1 where
  pub seckey_tweak_mul :
      (k t : List ℕ)
      → length k ≡ 32
      → length t ≡ 32
      → Both (Fails (SameBytes 32)) (f.seckey_tweak_mul k t) (g.seckey_tweak_mul k t)
  pub sign32 :
      (msg : List ℕ) (k : f.Keypair) (k' : g.Keypair) (aux : Option (List ℕ))
      → length msg ≡ 32
      → ((a : List ℕ) → aux ≡ some a → length a ≡ 32)
      → c.SameKeypair k k'
      → Both (Fails (SameBytes 64)) (f.sign32 msg k aux) (g.sign32 msg k' aux)

-- Two builds for the target.
pub record SchnorrsigBuilds (f g : SchnorrsigApi) : Type 1 where
  pub contract : SchnorrsigContract f g
  pub fails_alike : FailsAlike f g contract
