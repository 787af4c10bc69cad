-- ===== src/Tests/Keys/Builds.antt =====
-- A stand-in for the key functions, which keeps the contract: keys are numbers, and 0 is an object
-- of zero bytes. With `strict`, a call on that object aborts.
use diffsecp.Prelude.{
  ℕ, suc, ◌+◌, ◌≤◌, ℤ, pos, List, [], ◌∷◌, ◌≡◌, refl, ap, arith, Option, some, Bool, true, false,
  not, ◌||◌, leb, ◌==◌, if◌then◌else◌, length, is_nonzero,
}
use diffsecp.Tests.Bytes.{of_b32, to_bytes, length-to_bytes, check}
use diffsecp.Keys.Api.{KeysApi, EcdhHash}
use diffsecp.Run.Results.{Pairwise}
use diffsecp.Keys.Contract.{KeysContract, IsHash}

-- What a hash function writes for the coordinates of the point of `k`.
hashed : EcdhHash → ℕ → ℤ × List ℕ
hashed EcdhHash.null_hash k = (pos 1, to_bytes 32 k)
hashed EcdhHash.named_sha256 k = (pos 1, to_bytes 32 k)
hashed (EcdhHash.own_hash h) k = h (to_bytes 32 k) (to_bytes 32 (k + 1))

guarded {ℓ} : {A : Type ℓ} → Bool → ℕ → A → Option A
guarded strict k a = check (not strict || leb 1 k) a

pub build : Bool → KeysApi
unfolding guarded check
build strict = record {
  Pubkey = ℕ;
  Keypair = ℕ;
  Xonly = ℕ;
  zeroed = 0;
  seckey_verify = λ k. some (pos 1);
  seckey_negate = λ k. some (pos 1, to_bytes 32 (of_b32 0 k));
  seckey_tweak_add = λ k t. some (pos 1, to_bytes 32 (of_b32 0 k + of_b32 0 t));
  seckey_tweak_mul = λ k t. some (pos 1, to_bytes 32 (of_b32 0 k));
  pubkey_create = λ k. some (pos 1, 1 + of_b32 0 k);
  pubkey_parse = λ b n. some (if n == 33 then pos 1 else pos 0, 1 + of_b32 0 b);
  pubkey_negate = λ p. guarded strict p (pos 1, p);
  pubkey_tweak_add = λ p t. guarded strict p (pos 1, p + of_b32 0 t);
  pubkey_tweak_mul = λ p t. guarded strict p (pos 1, p);
  pubkey_combine = λ ps. some (pos 1, length ps);
  pubkey_cmp = λ p q. guarded strict p (if leb p q then pos 0 else pos 1);
  pubkey_sort = λ ps. some (pos 1, ps);
  pubkey_serialize = λ p size. guarded strict p (to_bytes 33 p);
  keypair_create = λ k. some (pos 1, 1 + of_b32 0 k);
  keypair_xonly_pub = λ k. some (pos 0, k);
  keypair_xonly_tweak_add = λ k t. some (pos 1, k + of_b32 0 t);
  keypair_sec = λ k. some (to_bytes 32 k);
  keypair_pub = λ k. some (1 + k);
  xonly_from_pubkey = λ p. guarded strict p (pos 0, p);
  xonly_serialize = λ x. some (to_bytes 32 x);
  xonly_cmp = λ x y. some (if leb x y then pos 0 else pos 1);
  xonly_tweak_add = λ x t. some (pos 1, 1 + x);
  ecdh = λ h p k. guarded strict p (hashed h (p + of_b32 0 k));
  ecdh_hash_function_sha256 = λ x y. some (pos 1, to_bytes 32 (of_b32 0 x));
}

abbrev Same : ℕ → ℕ → Type 0
Same p q = (p ≡ q) × (1 ≤ p)

passes {ℓ} : {A : Type ℓ} (k : ℕ) (a : A) → 1 ≤ k → guarded true k a ≡ some a
unfolding guarded check
passes k a h = let e : leb 1 k ≡ true = ground arith in rw e refl

Pairwise-length : (ps qs : List ℕ) → Pairwise Same ps qs → length ps ≡ length qs
Pairwise-length [] [] h = refl
Pairwise-length [] (q ∷ qs) h = absurd h
Pairwise-length (p ∷ ps) [] h = absurd h
Pairwise-length (p ∷ ps) (q ∷ qs) h = ap suc (Pairwise-length ps qs h.1)

hashed-length :
    (h : EcdhHash) (n k : ℕ)
    → IsHash h n
    → is_nonzero (hashed h k).0 ≡ true
    → length (hashed h k).1 ≡ n
unfolding hashed
hashed-length EcdhHash.null_hash n k i e = omega (arith, i, length-to_bytes 32 k)
hashed-length EcdhHash.named_sha256 n k i e = omega (arith, i, length-to_bytes 32 k)
hashed-length (EcdhHash.own_hash h) n k i e =
    i (to_bytes 32 k) (to_bytes 32 (k + 1)) (length-to_bytes 32 k) (length-to_bytes 32 (k + 1)) e

pub builds_agree : KeysContract (build false) (build true)
unfolding build guarded check
builds_agree = record {
  Same = Same;
  SameKeypair = λ p q. p ≡ q;
  SameXonly = λ x y. x ≡ y;
  seckey_verify = λ k l. (_, refl, refl, tt);
  seckey_negate = λ k l. (_, _, refl, refl, (refl, λ ok. (refl, length-to_bytes 32 _)));
  seckey_tweak_add = λ k t l m. (_, _, refl, refl, (refl, λ ok. (refl, length-to_bytes 32 _)));
  seckey_tweak_mul = λ k t l m. (_, _, refl, refl, (refl, λ ok. (refl, length-to_bytes 32 _)));
  pubkey_create = λ k l. (_, _, refl, refl, (refl, λ ok. (refl, omega arith)));
  pubkey_parse = λ b n l. (_, _, refl, refl, (refl, λ ok. (refl, omega arith)));
  pubkey_negate = λ p q h. rw (← h.0) (_, _, refl, passes p _ h.1, (refl, λ ok. (refl, h.1)));
  pubkey_tweak_add = λ t p q l h.
      rw (← h.0) (_, _, refl, passes p _ h.1, (refl, λ ok. (refl, omega (arith, h.1))));
  pubkey_tweak_mul =
      λ t p q l h. rw (← h.0) (_, _, refl, passes p _ h.1, (refl, λ ok. (refl, h.1)));
  pubkey_combine = λ p q ps qs h hs.
      (_, _, refl, refl, (refl, λ ok. (ap suc (Pairwise-length ps qs hs), omega arith)));
  pubkey_cmp = λ p p' q q' h h'. rw (← h.0, ← h'.0) (_, _, refl, passes p _ h.1, refl);
  pubkey_sort = λ ps qs h. (_, _, refl, refl, (refl, h, refl));
  pubkey_serialize = λ size p q l h. rw (← h.0) (_, refl, passes p _ h.1, length-to_bytes 33 p);
  keypair_create = λ k l. (_, _, refl, refl, (refl, λ ok. refl));
  keypair_xonly_pub = λ p q h. (_, _, refl, refl, (refl, h));
  keypair_xonly_tweak_add =
      λ t p q l h. (_, _, refl, refl, (refl, λ ok. ap (λ k. k + of_b32 0 t) h));
  keypair_sec = λ p q h. rw h (_, refl, refl, length-to_bytes 32 q);
  keypair_pub = λ p q h. (_, _, refl, refl, (ap (λ k. 1 + k) h, omega arith));
  xonly_from_pubkey = λ p q h. rw (← h.0) (_, _, refl, passes p _ h.1, (refl, refl));
  xonly_serialize = λ x y h. rw h (_, refl, refl, length-to_bytes 32 y);
  xonly_cmp = λ x x' y y' h h'. rw (h, h') (_, _, refl, refl, refl);
  xonly_tweak_add = λ t x y l h. (_, _, refl, refl, (refl, λ ok. (ap (λ k. 1 + k) h, omega arith)));
  ecdh = λ h n k p q i l s.
      rw (← s.0)
        (_, _, refl, passes p _ s.1, (refl, λ ok. (refl, hashed-length h n (p + of_b32 0 k) i ok)));
  ecdh_hash_function_sha256 = λ x y l m. (_, refl, refl, length-to_bytes 32 _);
}
