-- ===== src/Tests/Musig/Builds.antt =====
-- Two stand-ins for MuSig2 over the builds of the field and scalar modules, which keep the contract:
-- a key is its secret, and sums stand for aggregates. The second aborts on an illegal call.
use diffsecp.Prelude.{
  ℕ, ◌+◌, ◌*◌, ◌%◌, ℤ, pos, List, [], ◌∷◌, ◌≡◌, refl, ap, sym, ◌∙◌, arith, Option, none, some, Bool,
  true, false, not, ◌||◌, leb, ◌==◌, length, if◌then◌else◌,
}
use diffsecp.Tests.Bytes.{of_b32, to_bytes, length-to_bytes, bit, check, check_passes}
use diffsecp.Field.Api.{FieldApi}
use diffsecp.Scalar.Api.{ScalarApi}
use diffsecp.Tests.Field.Builds as Field
use diffsecp.Tests.Field.Builds.{release, verify, Checked, to_value}
use diffsecp.Tests.Scalar.Builds as Scalar
use diffsecp.Run.Agree.{Both}
use diffsecp.Run.Results.{Beside, Succeeds, Pairwise}
use diffsecp.Musig.Api.{MusigApi}
use diffsecp.Musig.Contract.{MusigContract}

sum : List ℕ → ℕ
sum [] = 0
sum (k ∷ ks) = k + sum ks

Pairwise-equal : (ks ks' : List ℕ) → Pairwise (λ k k'. k ≡ k') ks ks' → ks ≡ ks'
Pairwise-equal [] [] h = refl
Pairwise-equal [] (k' ∷ ks') h = absurd h
Pairwise-equal (k ∷ ks) [] h = absurd h
Pairwise-equal (k ∷ ks) (k' ∷ ks') h = rw (h.0, Pairwise-equal ks ks' h.1) refl

-- A scalar beside a field element.
load : {F S : Type 0} → F → Option S → Option (ℤ × (F × S))
load fe none = none
load fe (some t) = some (pos 1, (fe, t))

load_same :
    {F S F' S' : Type 0} (P : F → F' → Type 0) (R : S → S' → Type 0) (x : F) (x' : F')
    (o : Option S) (o' : Option S')
    → P x x'
    → Both R o o'
    → Both (Beside (λ i i'. P i.0 i'.0 × R i.1 i'.1)) (load x o) (load x' o')
unfolding load
load_same P R x x' o o' p (a, b, e, e', r) = rw (e, e') (_, _, refl, refl, (refl, (p, r)))

-- The key a nonce was made for, and the nonce, until it is used.
abbrev Secnonce : Type 0
Secnonce = Option (ℕ × ℕ)

unfoldable sign : Bool → Secnonce → ℕ → ℕ → ℕ → Option (ℤ × (ℕ × Secnonce))
unfolding check
sign strict none q c s = check (not strict) (pos 0, (0, none))
sign strict (some (k, r)) q c s = check (not strict || k == q) (pos 1, (r + q * c + s, none))

build :
    Bool
    → (field : FieldApi) → (scalar : ScalarApi) → (ℕ → field.Fe)
    → (ℕ → Option scalar.Sc)
    → MusigApi
unfolding check
build strict field scalar to_fe to_sc = record {
  field = field;
  scalar = scalar;
  Keypair = ℕ;
  Pubkey = ℕ;
  Xonly = ℕ;
  Ge = ℕ;
  Cache = ℕ;
  Secnonce = Secnonce;
  Pubnonce = ℕ;
  Aggnonce = ℕ;
  Session = ℕ;
  PartialSig = ℕ;
  CacheInternal = field.Fe × scalar.Sc;
  cache_pk_y = λ i. i.0;
  cache_parity_acc = λ i. 1;
  cache_tweak = λ i. i.1;
  keypair_create = λ k. some (bit (not (of_b32 0 k == 0)), of_b32 0 k);
  keypair_pub = λ k. some (pos 1, k);
  pubkey_serialize = λ k size compressed.
      check (not strict || leb (if compressed then 33 else 65) size)
        (to_bytes (if compressed then 33 else 65) k);
  pubkey_load = λ k. some (pos 1, k);
  pubkey_sort = λ ks. some (pos 1, ks);
  xonly_serialize = λ x. some (to_bytes 32 x);
  xonly_from_pubkey = λ k. some (k % 2, k);
  schnorrsig_verify =
      λ sig msg x. check (not strict || length sig == 64) (bit (of_b32 0 sig == of_b32 0 msg + x));
  pubkey_agg = λ ks. check (not strict || leb 1 (length ks)) (pos 1, (sum ks, sum ks));
  pubkey_agg_check = λ ks. check (not strict || leb 1 (length ks)) (pos 1);
  pubkey_get = λ c. some (pos 1, c);
  keyagg_cache_load = λ c. load (to_fe c) (to_sc c);
  keyaggcoef = λ i p. to_sc p;
  pubkey_ec_tweak_add = λ output c t. some (pos 1, c + of_b32 0 t);
  pubkey_xonly_tweak_add = λ output c t. some (pos 1, c + of_b32 0 t);
  nonce_gen = λ secrand key k msg c extra.
      some (bit (not (of_b32 0 secrand == 0)), (some (k, of_b32 0 secrand), of_b32 0 secrand));
  nonce_gen_counter = λ counter q msg c extra. some (pos 1, (some (q, counter), counter));
  pubnonce_serialize = λ n. some (to_bytes 66 n);
  pubnonce_parse = λ b. some (pos 1, of_b32 0 b);
  nonce_agg = λ ns. check (not strict || leb 1 (length ns)) (pos 1, sum ns);
  aggnonce_parse = λ b. some (pos 1, of_b32 0 b);
  aggnonce_serialize = λ n. some (to_bytes 66 n);
  nonce_process = λ n msg c. some (pos 1, n + of_b32 0 msg);
  partial_sign = λ n q c s. sign strict n q c s;
  partial_sig_serialize = λ p. some (to_bytes 32 p);
  partial_sig_parse = λ b. some (pos 1, of_b32 0 b);
  partial_sig_verify = λ p n k c s. some (bit (p == n + k * c + s));
  partial_sig_agg =
      λ s ps. check (not strict || leb 1 (length ps)) (pos 1, to_bytes 64 (s + sum ps));
}

pub release_build : MusigApi
unfolding build release
release_build = build false release (Scalar.build false) (λ x. x) ((Scalar.build false).set_int)

pub verify_build : MusigApi
unfolding build verify
verify_build =
    build true verify (Scalar.build true) (λ x. record { val = x; mag = 1 })
      ((Scalar.build true).set_int)

-- Objects of the builds are the same numbers.
abbrev Alike : ℕ → ℕ → Type 0
Alike k k' = k ≡ k'

abbrev SameUnused : ℕ → Secnonce → ℕ → Secnonce → Type 0
SameUnused k n k' n' = (r : ℕ) × (n ≡ some (k, r)) × (n' ≡ some (k', r)) × (k ≡ k')

sign_same :
    (n n' : Secnonce) (q q' k k' c c' s s' : ℕ)
    → SameUnused k n k' n'
    → Alike q q'
    → (q ≡ k) × (q' ≡ k')
    → Alike c c'
    → Alike s s'
    → Both (Succeeds (λ p p'. Alike p.0 p'.0)) (sign false n q c s) (sign true n' q' c' s')
unfolding sign check
sign_same n n' q q' k k' c c' s s' (r, e, e', hk) hq (o, o') hc hs =
    rw (e, e')
      (_, _, refl, check_passes _ _ (ground (arith, o')), (refl, λ _. rw (hq, hc, hs) refl))

pub builds_agree : MusigContract release_build verify_build
unfolding release_build verify_build build release verify check
builds_agree = record {
  field = Field.builds_agree;
  scalar = Scalar.builds_agree;
  SameKeypair = Alike;
  SamePubkey = Alike;
  SameXonly = Alike;
  SameGe = Alike;
  SameCache = Alike;
  SameInternal = λ i i'. Field.builds_agree.Value 3 i.0 i'.0 × Scalar.builds_agree.Value i.1 i'.1;
  SamePubnonce = Alike;
  SameAggnonce = Alike;
  SameSession = Alike;
  SamePartial = Alike;
  Owns = λ q k q' k'. (q ≡ k) × (q' ≡ k');
  Unused = SameUnused;
  internal_parity = λ i i' h. refl;
  internal_tweak = λ i i' h. h.1;
  internal_pk_y = λ i i' h. h.0;
  keypair_create = λ k l. (_, _, refl, refl, (refl, λ _. refl));
  keypair_pub = λ k k' h. (_, _, refl, refl, (refl, (h, (refl, refl))));
  pubkey_serialize = λ k k' size compressed l h.
      rw h (_, refl, check_passes _ _ (ground (arith, l)), length-to_bytes _ k');
  pubkey_load = λ k k' h. (_, _, refl, refl, (refl, h));
  pubkey_sort = λ ks ks' h. (_, _, refl, refl, (refl, (h, refl)));
  xonly_serialize = λ x y h. rw h (_, refl, refl, length-to_bytes 32 y);
  xonly_from_pubkey = λ k k' h. (_, _, refl, refl, (ap (λ k. k % 2) h, h));
  schnorrsig_verify = λ sig msg x y l h. rw h (_, refl, check_passes _ _ (ground (arith, l)), tt);
  pubkey_agg = λ ks ks' l h.
      rw (← Pairwise-equal ks ks' h)
        (_, _, refl, check_passes _ _ (ground (arith, l)), (refl, λ _. (refl, refl)));
  pubkey_agg_check = λ ks ks' l h.
      rw (← Pairwise-equal ks ks' h) (_, refl, check_passes _ _ (ground (arith, l)), tt);
  pubkey_get = λ c c' h. (_, _, refl, refl, (refl, h));
  keyagg_cache_load = λ c c' h.
      load_same (Field.builds_agree.Value 3) Scalar.builds_agree.Value _ _ _ _
        (to_value (record { same = sym h; small = omega arith })) (rw h (Scalar.set_int_same c'));
  keyaggcoef = λ i i' p p' hi hp. rw hp (Scalar.set_int_same p');
  pubkey_ec_tweak_add =
      λ output c c' t l h. (_, _, refl, refl, (refl, λ _. ap (λ c. c + of_b32 0 t) h));
  pubkey_xonly_tweak_add =
      λ output c c' t l h. (_, _, refl, refl, (refl, λ _. ap (λ c. c + of_b32 0 t) h));
  nonce_gen = λ secrand key key' k k' msg msg' c c' extra extra' l hkey hk hmsg hc hextra.
      (_, _, refl, refl, (refl, λ _. ((of_b32 0 secrand, refl, refl, hk), refl)));
  nonce_gen_counter = λ n q q' k k' msg msg' c c' extra extra' l hq ho hmsg hc hextra. (
    _,
    _,
    refl,
    refl,
    (
      refl,
      λ _.
          ((n, ap (λ k. some (k, n)) ho.0, ap (λ k. some (k, n)) ho.1, sym ho.0 ∙ hq ∙ ho.1), refl),
    ),
  );
  pubnonce_serialize = λ n n' h. rw h (_, refl, refl, length-to_bytes 66 n');
  pubnonce_parse = λ b l. (_, _, refl, refl, (refl, λ _. refl));
  nonce_agg = λ ns ns' l h.
      rw (← Pairwise-equal ns ns' h)
        (_, _, refl, check_passes _ _ (ground (arith, l)), (refl, λ _. refl));
  aggnonce_parse = λ b l. (_, _, refl, refl, (refl, λ _. refl));
  aggnonce_serialize = λ n n' h. rw h (_, refl, refl, length-to_bytes 66 n');
  nonce_process =
      λ n n' msg c c' l h hc. (_, _, refl, refl, (refl, λ _. ap (λ n. n + of_b32 0 msg) h));
  partial_sign =
      λ n n' q q' k k' c c' s s' hu hq ho hc hs. sign_same n n' q q' k k' c c' s s' hu hq ho hc hs;
  partial_sig_serialize = λ p p' h. rw h (_, refl, refl, length-to_bytes 32 p');
  partial_sig_parse = λ b l. (_, _, refl, refl, (refl, λ _. refl));
  partial_sig_verify =
      λ p p' n n' k k' c c' s s' hp hn hk hc hs. rw (hp, hn, hk, hc, hs) (_, refl, refl, tt);
  partial_sig_agg = λ s s' ps ps' l h hp.
      rw (← h, ← Pairwise-equal ps ps' hp)
        (
          _,
          _,
          refl,
          check_passes _ _ (ground (arith, l)),
          (refl, λ _. (refl, length-to_bytes 64 _)),
        );
}
