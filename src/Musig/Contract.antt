-- ===== src/Musig/Contract.antt =====
-- What src/targets/musig.c relies on of libsecp for two builds at once: a call on objects of
-- successful calls does not abort, and both builds get the same.
use diffsecp.Prelude.{ℕ, ◌^◌, ◌<◌, ◌≤◌, List, Option, Bool, ◌≡◌, length, if◌then◌else◌}
use diffsecp.Run.Agree.{Both, Shared, Any}
use diffsecp.Run.Results.{Succeeds, Beside, SameBytes, SameOption, Pairwise}
use diffsecp.Field.Contract.{FieldContract}
use diffsecp.Scalar.Contract.{ScalarContract}
use diffsecp.Musig.Api.{MusigApi}

-- The same bytes, 32 where there are any.
abbrev pub SameGiven : Option (List ℕ) → Option (List ℕ) → Type 0
SameGiven = SameOption (SameBytes 32)

pub record MusigContract (f g : MusigApi) : Type 1 where
  pub field : FieldContract f.field g.field
  pub scalar : ScalarContract f.scalar g.scalar
  pub SameKeypair : f.Keypair → g.Keypair → Type 0
  pub SamePubkey : f.Pubkey → g.Pubkey → Type 0
  pub SameXonly : f.Xonly → g.Xonly → Type 0
  pub SameGe : f.Ge → g.Ge → Type 0
  pub SameCache : f.Cache → g.Cache → Type 0
  pub SameInternal : f.CacheInternal → g.CacheInternal → Type 0
  pub SamePubnonce : f.Pubnonce → g.Pubnonce → Type 0
  pub SameAggnonce : f.Aggnonce → g.Aggnonce → Type 0
  pub SameSession : f.Session → g.Session → Type 0
  pub SamePartial : f.PartialSig → g.PartialSig → Type 0
  -- The public keys belong to the key pairs.
  pub Owns : f.Keypair → f.Pubkey → g.Keypair → g.Pubkey → Type 0
  -- Secret nonces that were made for these keys, and were not used yet.
  pub Unused : f.Pubkey → f.Secnonce → g.Pubkey → g.Secnonce → Type 0
  pub internal_parity :
      (i : f.CacheInternal) (i' : g.CacheInternal)
      → SameInternal i i'
      → f.cache_parity_acc i ≡ g.cache_parity_acc i'
  pub internal_tweak :
      (i : f.CacheInternal) (i' : g.CacheInternal)
      → SameInternal i i'
      → scalar.Value (f.cache_tweak i) (g.cache_tweak i')
  pub internal_pk_y :
      (i : f.CacheInternal) (i' : g.CacheInternal)
      → SameInternal i i'
      → field.Value 3 (f.cache_pk_y i) (g.cache_pk_y i')
  pub keypair_create :
      (k : List ℕ)
      → length k ≡ 32
      → Both (Succeeds SameKeypair) (f.keypair_create k) (g.keypair_create k)
  pub keypair_pub :
      (k : f.Keypair) (k' : g.Keypair)
      → SameKeypair k k'
      → Both
          (Beside (λ p p'. SamePubkey p p' × Owns k p k' p'))
          (f.keypair_pub k)
          (g.keypair_pub k')
  pub pubkey_serialize :
      (k : f.Pubkey) (k' : g.Pubkey) (size : ℕ) (compressed : Bool)
      → (if compressed then 33 else 65) ≤ size
      → SamePubkey k k'
      → Shared
          (λ b. length b ≡ (if compressed then 33 else 65))
          (f.pubkey_serialize k size compressed)
          (g.pubkey_serialize k' size compressed)
  pub pubkey_load :
      (k : f.Pubkey) (k' : g.Pubkey)
      → SamePubkey k k'
      → Both (Beside SameGe) (f.pubkey_load k) (g.pubkey_load k')
  pub pubkey_sort :
      (ks : List f.Pubkey) (ks' : List g.Pubkey)
      → Pairwise SamePubkey ks ks'
      → Both
          (Beside (λ s s'. Pairwise SamePubkey s s' × (length s ≡ length ks)))
          (f.pubkey_sort ks)
          (g.pubkey_sort ks')
  pub xonly_serialize :
      (x : f.Xonly) (y : g.Xonly)
      → SameXonly x y
      → Shared (λ b. length b ≡ 32) (f.xonly_serialize x) (g.xonly_serialize y)
  pub xonly_from_pubkey :
      (k : f.Pubkey) (k' : g.Pubkey)
      → SamePubkey k k'
      → Both (Beside SameXonly) (f.xonly_from_pubkey k) (g.xonly_from_pubkey k')
  pub schnorrsig_verify :
      (sig msg : List ℕ) (x : f.Xonly) (y : g.Xonly)
      → length sig ≡ 64
      → SameXonly x y
      → Shared Any (f.schnorrsig_verify sig msg x) (g.schnorrsig_verify sig msg y)
  -- Of at least one key.
  pub pubkey_agg :
      (ks : List f.Pubkey) (ks' : List g.Pubkey)
      → 1 ≤ length ks
      → Pairwise SamePubkey ks ks'
      → Both
          (Succeeds (λ a a'. SameXonly a.0 a'.0 × SameCache a.1 a'.1))
          (f.pubkey_agg ks)
          (g.pubkey_agg ks')
  pub pubkey_agg_check :
      (ks : List f.Pubkey) (ks' : List g.Pubkey)
      → 1 ≤ length ks
      → Pairwise SamePubkey ks ks'
      → Shared Any (f.pubkey_agg_check ks) (g.pubkey_agg_check ks')
  pub pubkey_get :
      (c : f.Cache) (c' : g.Cache)
      → SameCache c c'
      → Both (Beside SamePubkey) (f.pubkey_get c) (g.pubkey_get c')
  pub keyagg_cache_load :
      (c : f.Cache) (c' : g.Cache)
      → SameCache c c'
      → Both (Beside SameInternal) (f.keyagg_cache_load c) (g.keyagg_cache_load c')
  pub keyaggcoef :
      (i : f.CacheInternal) (i' : g.CacheInternal) (p : f.Ge) (p' : g.Ge)
      → SameInternal i i'
      → SameGe p p'
      → Both scalar.Value (f.keyaggcoef i p) (g.keyaggcoef i' p')
  pub pubkey_ec_tweak_add :
      (output : Bool) (c : f.Cache) (c' : g.Cache) (t : List ℕ)
      → length t ≡ 32
      → SameCache c c'
      → Both
          (Succeeds SameCache)
          (f.pubkey_ec_tweak_add output c t)
          (g.pubkey_ec_tweak_add output c' t)
  pub pubkey_xonly_tweak_add :
      (output : Bool) (c : f.Cache) (c' : g.Cache) (t : List ℕ)
      → length t ≡ 32
      → SameCache c c'
      → Both
          (Succeeds SameCache)
          (f.pubkey_xonly_tweak_add output c t)
          (g.pubkey_xonly_tweak_add output c' t)
  pub nonce_gen :
      (secrand : List ℕ) (key key' : Option (List ℕ)) (k : f.Pubkey) (k' : g.Pubkey)
      (msg msg' : Option (List ℕ)) (c : Option f.Cache) (c' : Option g.Cache)
      (extra extra' : Option (List ℕ))
      → length secrand ≡ 32
      → SameGiven key key'
      → SamePubkey k k'
      → SameGiven msg msg'
      → SameOption SameCache c c'
      → SameGiven extra extra'
      → Both
          (Succeeds (λ n n'. Unused k n.0 k' n'.0 × SamePubnonce n.1 n'.1))
          (f.nonce_gen secrand key k msg c extra)
          (g.nonce_gen secrand key' k' msg' c' extra')
  pub nonce_gen_counter :
      (counter : ℕ) (q : f.Keypair) (q' : g.Keypair) (k : f.Pubkey) (k' : g.Pubkey)
      (msg msg' : Option (List ℕ)) (c : Option f.Cache) (c' : Option g.Cache)
      (extra extra' : Option (List ℕ))
      → counter < 2 ^ 64
      → SameKeypair q q'
      → Owns q k q' k'
      → SameGiven msg msg'
      → SameOption SameCache c c'
      → SameGiven extra extra'
      → Both
          (Succeeds (λ n n'. Unused k n.0 k' n'.0 × SamePubnonce n.1 n'.1))
          (f.nonce_gen_counter counter q msg c extra)
          (g.nonce_gen_counter counter q' msg' c' extra')
  pub pubnonce_serialize :
      (n : f.Pubnonce) (n' : g.Pubnonce)
      → SamePubnonce n n'
      → Shared (λ b. length b ≡ 66) (f.pubnonce_serialize n) (g.pubnonce_serialize n')
  pub pubnonce_parse :
      (b : List ℕ)
      → length b ≡ 66
      → Both (Succeeds SamePubnonce) (f.pubnonce_parse b) (g.pubnonce_parse b)
  pub nonce_agg :
      (ns : List f.Pubnonce) (ns' : List g.Pubnonce)
      → 1 ≤ length ns
      → Pairwise SamePubnonce ns ns'
      → Both (Succeeds SameAggnonce) (f.nonce_agg ns) (g.nonce_agg ns')
  pub aggnonce_parse :
      (b : List ℕ)
      → length b ≡ 66
      → Both (Succeeds SameAggnonce) (f.aggnonce_parse b) (g.aggnonce_parse b)
  pub aggnonce_serialize :
      (n : f.Aggnonce) (n' : g.Aggnonce)
      → SameAggnonce n n'
      → Shared (λ b. length b ≡ 66) (f.aggnonce_serialize n) (g.aggnonce_serialize n')
  pub nonce_process :
      (n : f.Aggnonce) (n' : g.Aggnonce) (msg : List ℕ) (c : f.Cache) (c' : g.Cache)
      → length msg ≡ 32
      → SameAggnonce n n'
      → SameCache c c'
      → Both (Succeeds SameSession) (f.nonce_process n msg c) (g.nonce_process n' msg c')
  -- With the key pair that the unused nonce was made for.
  pub partial_sign :
      (n : f.Secnonce) (n' : g.Secnonce) (q : f.Keypair) (q' : g.Keypair) (k : f.Pubkey)
      (k' : g.Pubkey) (c : f.Cache) (c' : g.Cache) (s : f.Session) (s' : g.Session)
      → Unused k n k' n'
      → SameKeypair q q'
      → Owns q k q' k'
      → SameCache c c'
      → SameSession s s'
      → Both
          (Succeeds (λ p p'. SamePartial p.0 p'.0))
          (f.partial_sign n q c s)
          (g.partial_sign n' q' c' s')
  pub partial_sig_serialize :
      (p : f.PartialSig) (p' : g.PartialSig)
      → SamePartial p p'
      → Shared (λ b. length b ≡ 32) (f.partial_sig_serialize p) (g.partial_sig_serialize p')
  pub partial_sig_parse :
      (b : List ℕ)
      → length b ≡ 32
      → Both (Succeeds SamePartial) (f.partial_sig_parse b) (g.partial_sig_parse b)
  pub partial_sig_verify :
      (p : f.PartialSig) (p' : g.PartialSig) (n : f.Pubnonce) (n' : g.Pubnonce) (k : f.Pubkey)
      (k' : g.Pubkey) (c : f.Cache) (c' : g.Cache) (s : f.Session) (s' : g.Session)
      → SamePartial p p'
      → SamePubnonce n n'
      → SamePubkey k k'
      → SameCache c c'
      → SameSession s s'
      → Shared Any (f.partial_sig_verify p n k c s) (g.partial_sig_verify p' n' k' c' s')
  pub partial_sig_agg :
      (s : f.Session) (s' : g.Session) (ps : List f.PartialSig) (ps' : List g.PartialSig)
      → 1 ≤ length ps
      → SameSession s s'
      → Pairwise SamePartial ps ps'
      → Both (Succeeds (SameBytes 64)) (f.partial_sig_agg s ps) (g.partial_sig_agg s' ps')
