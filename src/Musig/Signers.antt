-- ===== src/Musig/Signers.antt =====
-- The input of the MuSig2 target, its signers and their keys, over two builds.
use diffsecp.Prelude.{
  ℕ, zero, suc, ◌+◌, ◌*◌, ◌%◌, ◌<◌, ◌≤◌, List, [], ◌∷◌, Option, none, some, ◌≡◌, refl, arith,
  length, is_nonzero, has_flag,
}
use diffsecp.Run.Agree.{Agree, Does, Agree-pure, Agree-call, Agree-step, Agree-if, Agree-bind_le}
use diffsecp.Run.Steps.{Does-u8, Does-take, Does-put_int}
use diffsecp.Run.Results.{SameOption, Pairwise}
use diffsecp.Musig.Api.{MusigApi}
use diffsecp.Musig.Contract.{MusigContract}
use diffsecp.Musig.Target.{Seeds, MusigInput, read_seeds, musig_read, Signer, musig_max_signers}
use diffsecp.Musig.Aggregate.{add_first, create_signers, sort_pointers, musig_sort}

pub record IsSeeds (s : Seeds) : Type 0 where
  pub seckey : length s.seckey ≡ 32
  pub secrand : length s.secrand ≡ 32

abbrev pub AllSeeds : List Seeds → Type 0
AllSeeds [] = Unit
AllSeeds (s ∷ seeds) = IsSeeds s × AllSeeds seeds

-- The sizes of the arrays, at least one signer and at most three, and a victim among them.
pub record IsInput (mi : MusigInput) : Type 0 where
  pub msg : length mi.msg ≡ 32
  pub extra : length mi.extra ≡ 32
  pub tweak0 : length mi.tweak0 ≡ 32
  pub tweak1 : length mi.tweak1 ≡ 32
  pub seeds : AllSeeds mi.seeds
  pub some_seeds : 1 ≤ length mi.seeds
  pub few_seeds : length mi.seeds ≤ 3
  pub victim : mi.victim < length mi.seeds
  pub pubnonce : length mi.pubnonce ≡ 66
  pub aggnonce : length mi.aggnonce ≡ 66
  pub partial_sig : length mi.partial_sig ≡ 32

Does-read_seeds : (left : ℕ) → Does 0 (λ s. AllSeeds s × (length s ≡ left)) (read_seeds left)
unfolding read_seeds
Does-read_seeds zero = Agree-pure _ _ (refl, (tt, refl))
Does-read_seeds (suc left) = Agree-step 0 (Does-take 32) refl λ seckey ls.
    Agree-step 0 (Does-take 32) refl λ secrand lr.
      Agree-step 0 (Does-read_seeds left) refl λ rest r.
        Agree-pure _ _ (refl, ((record { seckey = ls; secrand = lr }, r.0), omega (arith, r.1)))

pub Does-musig_read : Does 0 IsInput musig_read
unfolding musig_read
Does-musig_read = Agree-step 0 Does-u8 refl λ flags _. Agree-step 0 Does-u8 refl λ count _.
    Agree-step 0 Does-u8 refl λ victim _. Agree-step 0 (Does-take 32) refl λ msg lm.
      Agree-step 0 (Does-take 32) refl λ extra le. Agree-step 0 (Does-take 32) refl λ tweak0 l0.
        Agree-step 0 (Does-take 32) refl λ tweak1 l1.
          Agree-step 0 (Does-read_seeds (1 + count % musig_max_signers)) refl λ seeds s.
            Agree-step 0 (Does-take 66) refl λ pubnonce lp.
              Agree-step 0 (Does-take 66) refl λ aggnonce la.
                Agree-step 0 (Does-take 32) refl λ partial_sig lq.
                  Agree-step 0 Does-u8 refl λ late _. Agree-pure _ _ (
                    refl,
                    record {
                      msg = lm;
                      extra = le;
                      tweak0 = l0;
                      tweak1 = l1;
                      seeds = s.0;
                      some_seeds = omega (arith, s.1);
                      few_seeds = omega (arith, s.1);
                      victim = omega (arith, s.1);
                      pubnonce = lp;
                      aggnonce = la;
                      partial_sig = lq;
                    },
                  )

-- As many as were wanted, unless the target ended.
abbrev pub SameMade :
    {A B : Type 0} → (A → B → Type 0) → ℕ → Option (List A) → Option (List B) → Type 0
SameMade R n = SameOption (λ xs ys. Pairwise R xs ys × (length xs ≡ n))

pub add_first-SameMade :
    {A B : Type 0} (R : A → B → Type 0) (n : ℕ) (a : A) (b : B) (xs : Option (List A))
    (ys : Option (List B))
    → R a b
    → SameMade R n xs ys
    → SameMade R (suc n) (add_first a xs) (add_first b ys)
add_first-SameMade R n a b none none h r = tt
add_first-SameMade R n a b (some xs) (some ys) h r = ((h, r.0), omega (arith, r.1))
add_first-SameMade R n a b none (some ys) h r = absurd r
add_first-SameMade R n a b (some xs) none h r = absurd r

module _ (f g : MusigApi) (c : MusigContract f g) where
  pub record SameSigner (s : Signer f) (s' : Signer g) : Type 0 where
    pub seeds : s.seeds ≡ s'.seeds
    pub sized : IsSeeds s.seeds
    pub keypair : c.SameKeypair s.keypair s'.keypair
    pub pubkey : c.SamePubkey s.pubkey s'.pubkey
    pub owns : c.Owns s.keypair s.pubkey s'.keypair s'.pubkey

  pub create_signers-Agree :
      (seeds : List Seeds)
      → AllSeeds seeds
      → Agree
          (length seeds * 4)
          (SameMade SameSigner (length seeds))
          (create_signers f seeds)
          (create_signers g seeds)
  unfolding create_signers
  create_signers-Agree [] h = Agree-pure _ _ (tt, refl)
  create_signers-Agree (s ∷ seeds) h = Agree-call (c.keypair_create s.seckey h.0.seckey) λ k k' hk.
      rw (← hk.0) (
        Agree-bind_le 4 {k = length seeds * 4} (omega arith) (Does-put_int k.0) λ _ _ _.
          Agree-if (is_nonzero k.0)
            (λ ok. Agree-call (c.keypair_pub k.1 k'.1 (hk.1 ok)) λ p p' hp.
              Agree-bind_le (length seeds * 4) {k = 0} (omega arith)
                (create_signers-Agree seeds h.1)
                λ r r' hr. Agree-pure _ _ (
                  add_first-SameMade SameSigner (length seeds) _ _ r r'
                    (record {
                      seeds = refl;
                      sized = h.0;
                      keypair = hk.1 ok;
                      pubkey = hp.1.0;
                      owns = hp.1.1;
                    })
                    hr))
            (λ _. Agree-pure _ _ tt))

  pub sort_pointers-Agree :
      (flags : ℕ) (ps : List f.Pubkey) (qs : List g.Pubkey)
      → Pairwise c.SamePubkey ps qs
      → Agree 4
          (λ s s'. Pairwise c.SamePubkey s s' × (length s ≡ length ps))
          (sort_pointers f flags ps)
          (sort_pointers g flags qs)
  unfolding sort_pointers
  sort_pointers-Agree flags ps qs h =
      Agree-if (has_flag flags musig_sort)
        (λ _.
          Agree-call (c.pubkey_sort ps qs h) λ s s' hs.
            rw (← hs.0) (Agree-step 4 (Does-put_int s.0) refl λ _ _. Agree-pure _ _ hs.1))
        (λ _. Agree-pure _ _ (h, refl))
