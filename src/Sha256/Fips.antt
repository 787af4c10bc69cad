-- ===== src/Sha256/Fips.antt =====
-- `sha256_compress` of src/sha256.h computes what FIPS 180-4 defines.
use diffsecp.Prelude.{ℕ, zero, suc, ◌-◌, ◌^◌, ◌≤◌, ◌<◌, List, [], ◌∷◌, get_or, take, drop, length}
use diffsecp.Prelude.{◌≡◌, refl, ◌∙◌, ap, arith, All, IsByte, ◌⊎◌, inl, inr}
use diffsecp.Sha256.{load_words, schedule_word, schedule, sha256_compress}
use diffsecp.Sha256.Standard.{Vars, words, IsWords, message_word, fips_block, IsSchedule, IsHash}
use diffsecp.Sha256.Words.{rotations-sigma0, rotations-sigma1}
use diffsecp.Sha256.Steps.{
  block-words, fips_block-IsWords, schedule-front, schedule-next, load_words-load_word,
  load_word-message_word, message_word-lt, schedule_word-lt,
}

length-load_words : (n : ℕ) (b : List ℕ) → length (load_words n b) ≡ n
unfolding load_words
length-load_words zero b = refl
length-load_words (suc n) b = ap suc (length-load_words n (drop 4 b))

module _ (block : List ℕ) (h : All IsByte block) where
  abbrev word : ℕ → ℕ
  word t = get_or (schedule 48 16 (load_words 16 block)) t 0

  word-first : (t : ℕ) → t < 16 → word t ≡ message_word block t
  word-first t l =
      schedule-front 48 16 (load_words 16 block) t (omega (arith, l, length-load_words 16 block))
      ∙ load_words-load_word 16 block t l
      ∙ load_word-message_word block t h

  word-next :
      (t : ℕ) → 16 ≤ t → t < 64 → word t ≡ schedule_word (schedule 48 16 (load_words 16 block)) t
  word-next t l m =
      schedule-next 48 16 (load_words 16 block) t (length-load_words 16 block) (omega arith) l
        (omega (arith, m))

  word-lt : (t : ℕ) → t < 64 → word t < 2 ^ 32
  word-lt t m = elim (split t) [
    | inl early ↦ rw (word-first t early) (message_word-lt block t h)
    | inr late ↦ rw (word-next t late m) (schedule_word-lt _ t)
  ]
    where
      split : (t : ℕ) → (t < 16) ⊎ (16 ≤ t)
      split t = ground arith

  word-IsSchedule : IsSchedule block word
  word-IsSchedule = record {
    first = word-first;
    next = λ t l m.
        word-next t l m
        ∙ (unfold schedule_word in
            rw
              (
                rotations-sigma0 (word (t - 15)) (word-lt (t - 15) (omega (arith, l, m))),
                rotations-sigma1 (word (t - 2)) (word-lt (t - 2) (omega (arith, l, m))),
              )
              (omega arith));
  }

All-take : (n : ℕ) (xs : List ℕ) → All IsByte xs → All IsByte (take n xs)
All-take zero xs h = tt
All-take (suc n) [] h = tt
All-take (suc n) (x ∷ xs) h = (h.0, All-take n xs h.1)

All-drop : (n : ℕ) (xs : List ℕ) → All IsByte xs → All IsByte (drop n xs)
All-drop zero xs h = h
All-drop (suc n) [] h = tt
All-drop (suc n) (x ∷ xs) h = All-drop n xs h.1

-- On any number of blocks of bytes, and from a state of eight words of 32 bits, `sha256_compress`
-- leaves a hash value that FIPS 180-4 defines for these blocks: for each block in order there is a
-- message schedule that meets the standard's equations on the sixteen words of the block, the first
-- byte of each its highest, and the hash value is that of the 64 rounds with it on the named working
-- variables, added to the one before. The standard's constants are the first 32 bits of the fractional
-- parts of the cube roots of the first 64 primes.
pub sha256_compress-IsHash :
    (n : ℕ) (s : Vars) (blocks : List ℕ)
    → All IsByte blocks
    → IsWords s
    → (s' : Vars) × IsHash n blocks s s' × (sha256_compress (words s) blocks n ≡ words s')
unfolding sha256_compress
sha256_compress-IsHash zero s blocks h v = (s, IsHash.no_block blocks s, refl)
sha256_compress-IsHash (suc n) s blocks h v =
    let block = take 64 blocks in
    let bytes : All IsByte block = All-take 64 blocks h in
    let next = fips_block (word block bytes) s in
    let (s', hash, e) =
      sha256_compress-IsHash n next (drop 64 blocks) (All-drop 64 blocks h)
        (fips_block-IsWords (word block bytes) s) in
    (
      s',
      IsHash.next_block n blocks s s' (word block bytes) (word-IsSchedule block bytes) hash,
      rw (block-words s block v) e,
    )
