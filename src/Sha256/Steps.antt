-- ===== src/Sha256/Steps.antt =====
-- The rounds and the message schedule of src/sha256.h against those of FIPS 180-4.
use diffsecp.Prelude.{
  ℕ, zero, suc, ◌+◌, ◌-◌, ◌*◌, ◌%◌, ◌^◌, ◌≤◌, ◌<◌, List, [], ◌∷◌, ◌++◌, bit_or, bit_or_fields,
  get_or, take, drop, length, length-append,
}
use diffsecp.Prelude.{◌≡◌, refl, sym, ◌∙◌, arith, All, IsByte, ◌⊎◌, inl, inr}
use diffsecp.Sha256.{
  sha256_k, load_word, load_words, schedule_word, schedule, sha256_round, sha256_rounds, add_state,
  sha256_block,
}
use diffsecp.Sha256.Standard.{
  maj, Vars, words, IsWords, fips_round, fips_rounds, fips_block, message_word,
}
use diffsecp.Sha256.Words.{
  sha256_k-constants, rotations-big_sigma0, rotations-big_sigma1, choice-ch,
}

round-words :
    (v : Vars) (k w : ℕ) → IsWords v → sha256_round (words v) k w ≡ words (fips_round v k w)
unfolding sha256_round words fips_round maj
round-words v k w h =
    rw
      (
        rotations-big_sigma0 v.a h.0,
        rotations-big_sigma1 v.e h.1.1.1.1.0,
        choice-ch v.e h.1.1.1.1.0 v.f v.g,
      )
      refl

fips_round-IsWords : (v : Vars) (k w : ℕ) → IsWords v → IsWords (fips_round v k w)
unfolding fips_round words
fips_round-IsWords v k w (ha, (hb, (hc, (hd, (he, (hf, (hg, hh))))))) =
    (omega arith, (ha, (hb, (hc, (omega arith, (he, (hf, (hg, tt))))))))

rounds-words :
    (left t : ℕ) (w : List ℕ) (v : Vars)
    → IsWords v
    → sha256_rounds left t w (words v) ≡ words (fips_rounds left t (λ i. get_or w i 0) v)
unfolding sha256_rounds fips_rounds
rounds-words zero t w v h = refl
rounds-words (suc left) t w v h =
    let k = get_or sha256_k t 0 in
    rw (← sha256_k-constants, round-words v k (get_or w t 0) h)
      (rounds-words left (t + 1) w (fips_round v k (get_or w t 0))
        (fips_round-IsWords v k (get_or w t 0) h))

pub block-words :
    (s : Vars) (block : List ℕ)
    → IsWords s
    → let w = schedule 48 16 (load_words 16 block) in
      sha256_block (words s) block ≡ words (fips_block (λ i. get_or w i 0) s)
unfolding sha256_block
block-words s block h =
    rw (rounds-words 64 0 (schedule 48 16 (load_words 16 block)) s h)
      (unfold add_state words fips_block in refl)

pub fips_block-IsWords : (w : ℕ → ℕ) (s : Vars) → IsWords (fips_block w s)
unfolding fips_block words
fips_block-IsWords w s = (
  omega arith,
  (
    omega arith,
    (omega arith, (omega arith, (omega arith, (omega arith, (omega arith, (omega arith, tt)))))),
  ),
)

drop-drop : (n m : ℕ) (xs : List ℕ) → drop m (drop n xs) ≡ drop (n + m) xs
drop-drop zero m xs = let none : 0 + m ≡ m = omega arith in rw none refl
drop-drop (suc n) zero [] = let e : suc n + 0 ≡ suc n = omega arith in rw e refl
drop-drop (suc n) (suc m) [] = let e : suc n + suc m ≡ suc (n + suc m) = omega arith in rw e refl
drop-drop (suc n) m (x ∷ xs) =
    let e : suc n + m ≡ suc (n + m) = omega arith in rw e (drop-drop n m xs)

-- What is appended changes no entry, and stands at the end.
get_or-front : (w : List ℕ) (x t : ℕ) → t < length w → get_or (w ++ x ∷ []) t 0 ≡ get_or w t 0
get_or-front [] x t l = absurd (omega (arith, l))
get_or-front (y ∷ w) x zero l = refl
get_or-front (y ∷ w) x (suc t) l = get_or-front w x t (omega (arith, l))

get_or-end : (w : List ℕ) (x t : ℕ) → t ≡ length w → get_or (w ++ x ∷ []) t 0 ≡ x
get_or-end [] x zero l = refl
get_or-end [] x (suc t) l = absurd (omega (arith, l))
get_or-end (y ∷ w) x zero l = absurd (omega (arith, l))
get_or-end (y ∷ w) x (suc t) l = get_or-end w x t (omega (arith, l))

pub schedule-front :
    (left i : ℕ) (w : List ℕ) (t : ℕ) → t < length w → get_or (schedule left i w) t 0 ≡ get_or w t 0
unfolding schedule
schedule-front zero i w t l = refl
schedule-front (suc left) i w t l =
    schedule-front left (i + 1) (w ++ schedule_word w i ∷ []) t
      (omega (arith, l, length-append w (schedule_word w i ∷ [])))
    ∙ get_or-front w (schedule_word w i) t l

-- A word of the schedule depends on four words before it.
schedule_word-same :
    (w w' : List ℕ) (i : ℕ)
    → ((t : ℕ) → t < i → get_or w' t 0 ≡ get_or w t 0)
    → 16 ≤ i
    → schedule_word w' i ≡ schedule_word w i
unfolding schedule_word
schedule_word-same w w' i same l =
    rw
      (
        same (i - 2) (omega arith),
        same (i - 7) (omega arith),
        same (i - 15) (omega arith),
        same (i - 16) (omega arith),
      )
      refl

pub schedule-next :
    (left i : ℕ) (w : List ℕ) (t : ℕ)
    → length w ≡ i
    → 16 ≤ i
    → i ≤ t
    → t < i + left
    → get_or (schedule left i w) t 0 ≡ schedule_word (schedule left i w) t
unfolding schedule
schedule-next zero i w t e l m k = absurd (omega (arith, m, k))
schedule-next (suc left) i w t e l m k =
    let next = w ++ schedule_word w i ∷ [] in
    let longer : length next ≡ i + 1 = omega (arith, e, length-append w (schedule_word w i ∷ [])) in
    let keeps : (u : ℕ) → u < i → get_or (schedule left (i + 1) next) u 0 ≡ get_or w u 0 = λ u lu.
      schedule-front left (i + 1) next u (omega (arith, longer, lu))
      ∙ get_or-front w (schedule_word w i) u (omega (arith, e, lu)) in
    elim (le-split i t m) [
      | inl same ↦ rw (← same) (
          schedule-front left (i + 1) next i (omega (arith, longer))
          ∙ get_or-end w (schedule_word w i) i (sym e)
          ∙ sym (schedule_word-same w (schedule left (i + 1) next) i keeps l))
      | inr after ↦
          schedule-next left (i + 1) next t longer (omega arith) (omega (arith, after))
            (omega (arith, k))
    ]
  where
    le-split : (i t : ℕ) → i ≤ t → (i ≡ t) ⊎ (i + 1 ≤ t)
    le-split i t h = ground arith

-- The four bytes of a word.
get_or-drop : (k : ℕ) (xs : List ℕ) (j : ℕ) → get_or (drop k xs) j 0 ≡ get_or xs (k + j) 0
get_or-drop zero xs j = let e : 0 + j ≡ j = omega arith in rw e refl
get_or-drop (suc k) [] j = refl
get_or-drop (suc k) (x ∷ xs) j =
    let e : suc k + j ≡ suc (k + j) = omega arith in rw e (get_or-drop k xs j)

get_or-take : (n : ℕ) (xs : List ℕ) (j : ℕ) → j < n → get_or (take n xs) j 0 ≡ get_or xs j 0
get_or-take zero xs j l = absurd (omega (arith, l))
get_or-take (suc n) [] j l = refl
get_or-take (suc n) (x ∷ xs) zero l = refl
get_or-take (suc n) (x ∷ xs) (suc j) l = get_or-take n xs j (omega (arith, l))

pub load_words-load_word :
    (n : ℕ) (b : List ℕ) (t : ℕ)
    → t < n
    → get_or (load_words n b) t 0 ≡ load_word (take 4 (drop (4 * t) b))
unfolding load_words
load_words-load_word zero b t l = absurd (omega (arith, l))
load_words-load_word (suc n) b zero l = refl
load_words-load_word (suc n) b (suc t) l =
    let offset : 4 + 4 * t ≡ 4 * suc t = omega arith in
    load_words-load_word n (drop 4 b) t (omega (arith, l)) ∙ rw (drop-drop 4 (4 * t) b, offset) refl

-- Four bytes as one word.
word_of_bytes :
    (p q r z : ℕ)
    → IsByte p
    → IsByte q
    → IsByte r
    → IsByte z
    → bit_or (bit_or (bit_or ((p * 2 ^ 24) % 2 ^ 32) (q * 2 ^ 16)) (r * 2 ^ 8)) z
      ≡ p * 2 ^ 24 + q * 2 ^ 16 + r * 2 ^ 8 + z
word_of_bytes p q r z hp hq hr hz =
    let top : (p * 2 ^ 24) % 2 ^ 32 ≡ p * 2 ^ 24 = omega (arith, hp) in
    let second : p * 2 ^ 24 + q * 2 ^ 16 ≡ (p * 2 ^ 8 + q) * 2 ^ 16 = omega arith in
    let third : (p * 2 ^ 8 + q) * 2 ^ 16 + r * 2 ^ 8 ≡ ((p * 2 ^ 8 + q) * 2 ^ 8 + r) * 2 ^ 8 =
      omega arith in
    rw
      (
        top,
        bit_or_fields 24 p (q * 2 ^ 16) (omega (arith, hq)),
        second,
        bit_or_fields 16 (p * 2 ^ 8 + q) (r * 2 ^ 8) (omega (arith, hr)),
        third,
        bit_or_fields 8 ((p * 2 ^ 8 + q) * 2 ^ 8 + r) z hz,
      )
      (omega arith)

get_or-IsByte : (block : List ℕ) (i : ℕ) → All IsByte block → IsByte (get_or block i 0)
get_or-IsByte [] i h = omega arith
get_or-IsByte (x ∷ block) zero h = h.0
get_or-IsByte (x ∷ block) (suc i) h = get_or-IsByte block i h.1

-- The byte at `j` of the four bytes from `k` on.
byte-at :
    (block : List ℕ) (k j : ℕ) → j < 4 → get_or (take 4 (drop k block)) j 0 ≡ get_or block (k + j) 0
byte-at block k j l = get_or-take 4 (drop k block) j l ∙ get_or-drop k block j

pub load_word-message_word :
    (block : List ℕ) (t : ℕ)
    → All IsByte block
    → load_word (take 4 (drop (4 * t) block)) ≡ message_word block t
unfolding load_word message_word
load_word-message_word block t h =
    let start : 4 * t + 0 ≡ 4 * t = omega arith in
    rw
      (
        byte-at block (4 * t) 0 (omega arith),
        byte-at block (4 * t) 1 (omega arith),
        byte-at block (4 * t) 2 (omega arith),
        byte-at block (4 * t) 3 (omega arith),
        start,
      )
      (word_of_bytes _ _ _ _ (get_or-IsByte block _ h) (get_or-IsByte block _ h)
        (get_or-IsByte block _ h) (get_or-IsByte block _ h))

-- A word of the message, and one of the schedule, has 32 bits.
pub message_word-lt : (block : List ℕ) (t : ℕ) → All IsByte block → message_word block t < 2 ^ 32
unfolding message_word
message_word-lt block t h = omega (
  arith,
  get_or-IsByte block (4 * t) h,
  get_or-IsByte block (4 * t + 1) h,
  get_or-IsByte block (4 * t + 2) h,
  get_or-IsByte block (4 * t + 3) h,
)

pub schedule_word-lt : (w : List ℕ) (i : ℕ) → schedule_word w i < 2 ^ 32
unfolding schedule_word
schedule_word-lt w i = omega arith
