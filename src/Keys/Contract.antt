-- ===== src/Keys/Contract.antt =====
-- What src/targets/keys.c relies on of libsecp, as its headers document it, for two builds at once:
-- a call on valid objects does not abort, and both builds get the same.
use diffsecp.Prelude.{ℕ, List, ◌∷◌, ◌≡◌, ◌≤◌, length, is_nonzero, true}
use diffsecp.Run.Results.{Pairwise, Succeeds, SameBytes}
use diffsecp.Run.Agree.{Both, Shared, Any}
use diffsecp.Keys.Api.{KeysApi, EcdhHash}
use diffsecp.Keys.Target.{keys_sign}

-- Where the hash function succeeds on two coordinates, it writes `n` bytes.
abbrev pub IsHash : EcdhHash → ℕ → Type 0
IsHash EcdhHash.null_hash n = n ≡ 32
IsHash EcdhHash.named_sha256 n = n ≡ 32
IsHash (EcdhHash.own_hash h) n =
    (x y : List ℕ)
    → length x ≡ 32
    → length y ≡ 32
    → is_nonzero (h x y).0 ≡ true
    → length (h x y).1 ≡ n

pub record KeysContract (f g : KeysApi) : Type 1 where
  pub Same : f.Pubkey → g.Pubkey → Type 0
  pub SameKeypair : f.Keypair → g.Keypair → Type 0
  pub SameXonly : f.Xonly → g.Xonly → Type 0
  pub seckey_verify :
      (k : List ℕ) → length k ≡ 32 → Shared Any (f.seckey_verify k) (g.seckey_verify k)
  pub seckey_negate :
      (k : List ℕ)
      → length k ≡ 32
      → Both (Succeeds (SameBytes 32)) (f.seckey_negate k) (g.seckey_negate k)
  pub seckey_tweak_add :
      (k t : List ℕ)
      → length k ≡ 32
      → length t ≡ 32
      → Both (Succeeds (SameBytes 32)) (f.seckey_tweak_add k t) (g.seckey_tweak_add k t)
  pub seckey_tweak_mul :
      (k t : List ℕ)
      → length k ≡ 32
      → length t ≡ 32
      → Both (Succeeds (SameBytes 32)) (f.seckey_tweak_mul k t) (g.seckey_tweak_mul k t)
  pub pubkey_create :
      (k : List ℕ) → length k ≡ 32 → Both (Succeeds Same) (f.pubkey_create k) (g.pubkey_create k)
  pub pubkey_parse :
      (b : List ℕ) (n : ℕ)
      → length b ≡ n
      → Both (Succeeds Same) (f.pubkey_parse b n) (g.pubkey_parse b n)
  pub pubkey_negate :
      (p : f.Pubkey) (q : g.Pubkey)
      → Same p q
      → Both (Succeeds Same) (f.pubkey_negate p) (g.pubkey_negate q)
  pub pubkey_tweak_add :
      (t : List ℕ) (p : f.Pubkey) (q : g.Pubkey)
      → length t ≡ 32
      → Same p q
      → Both (Succeeds Same) (f.pubkey_tweak_add p t) (g.pubkey_tweak_add q t)
  pub pubkey_tweak_mul :
      (t : List ℕ) (p : f.Pubkey) (q : g.Pubkey)
      → length t ≡ 32
      → Same p q
      → Both (Succeeds Same) (f.pubkey_tweak_mul p t) (g.pubkey_tweak_mul q t)
  -- At least one key.
  pub pubkey_combine :
      (p : f.Pubkey) (q : g.Pubkey) (ps : List f.Pubkey) (qs : List g.Pubkey)
      → Same p q
      → Pairwise Same ps qs
      → Both (Succeeds Same) (f.pubkey_combine (p ∷ ps)) (g.pubkey_combine (q ∷ qs))
  -- Only the sign is promised.
  pub pubkey_cmp :
      (p p' : f.Pubkey) (q q' : g.Pubkey)
      → Same p q
      → Same p' q'
      → Both (λ c c'. keys_sign c ≡ keys_sign c') (f.pubkey_cmp p p') (g.pubkey_cmp q q')
  pub pubkey_sort :
      (ps : List f.Pubkey) (qs : List g.Pubkey)
      → Pairwise Same ps qs
      → Both
          (λ s s'. (s.0 ≡ s'.0) × Pairwise Same s.1 s'.1 × (length s.1 ≡ length ps))
          (f.pubkey_sort ps)
          (g.pubkey_sort qs)
  pub pubkey_serialize :
      (size : ℕ) (p : f.Pubkey) (q : g.Pubkey)
      → 33 ≤ size
      → Same p q
      → Shared (λ b. length b ≡ 33) (f.pubkey_serialize p size) (g.pubkey_serialize q size)
  pub keypair_create :
      (k : List ℕ)
      → length k ≡ 32
      → Both (Succeeds SameKeypair) (f.keypair_create k) (g.keypair_create k)
  pub keypair_xonly_pub :
      (p : f.Keypair) (q : g.Keypair)
      → SameKeypair p q
      → Both
          (λ x y. (x.0 ≡ y.0) × SameXonly x.1 y.1)
          (f.keypair_xonly_pub p)
          (g.keypair_xonly_pub q)
  pub keypair_xonly_tweak_add :
      (t : List ℕ) (p : f.Keypair) (q : g.Keypair)
      → length t ≡ 32
      → SameKeypair p q
      → Both (Succeeds SameKeypair) (f.keypair_xonly_tweak_add p t) (g.keypair_xonly_tweak_add q t)
  pub keypair_sec :
      (p : f.Keypair) (q : g.Keypair)
      → SameKeypair p q
      → Shared (λ b. length b ≡ 32) (f.keypair_sec p) (g.keypair_sec q)
  pub keypair_pub :
      (p : f.Keypair) (q : g.Keypair)
      → SameKeypair p q
      → Both Same (f.keypair_pub p) (g.keypair_pub q)
  pub xonly_from_pubkey :
      (p : f.Pubkey) (q : g.Pubkey)
      → Same p q
      → Both
          (λ x y. (x.0 ≡ y.0) × SameXonly x.1 y.1)
          (f.xonly_from_pubkey p)
          (g.xonly_from_pubkey q)
  pub xonly_serialize :
      (x : f.Xonly) (y : g.Xonly)
      → SameXonly x y
      → Shared (λ b. length b ≡ 32) (f.xonly_serialize x) (g.xonly_serialize y)
  pub xonly_cmp :
      (x x' : f.Xonly) (y y' : g.Xonly)
      → SameXonly x y
      → SameXonly x' y'
      → Both (λ c c'. keys_sign c ≡ keys_sign c') (f.xonly_cmp x x') (g.xonly_cmp y y')
  pub xonly_tweak_add :
      (t : List ℕ) (x : f.Xonly) (y : g.Xonly)
      → length t ≡ 32
      → SameXonly x y
      → Both (Succeeds Same) (f.xonly_tweak_add x t) (g.xonly_tweak_add y t)
  pub ecdh :
      (h : EcdhHash) (n : ℕ) (k : List ℕ) (p : f.Pubkey) (q : g.Pubkey)
      → IsHash h n
      → length k ≡ 32
      → Same p q
      → Both (Succeeds (SameBytes n)) (f.ecdh h p k) (g.ecdh h q k)
  pub ecdh_hash_function_sha256 :
      (x y : List ℕ)
      → length x ≡ 32
      → length y ≡ 32
      → Shared
          (λ r. length r.1 ≡ 32)
          (f.ecdh_hash_function_sha256 x y)
          (g.ecdh_hash_function_sha256 x y)
