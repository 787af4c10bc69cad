-- ===== src/Oracle/Start/Spec.antt =====
-- What text makes `oracle_start` start which oracles.
use diffsecp.Prelude.{ℕ, ◌+◌, ◌≤◌, List, [], ◌∷◌, ◌++◌, Bool, true, some}
use diffsecp.Prelude.{◌≡◌, ◌≢◌, refl, arith, length, take_within, All, All-append}
use diffsecp.Oracle.Start.{
  Oracle, cut, piece, tokens, skip_spaces, split_at, start_command, start_entries, oracle_max, Rate,
  Started, oracle_start,
}

-- Pieces with a delimiter between them.
pub join : ℕ → List (List ℕ) → List ℕ
join delim [] = []
join delim (p ∷ []) = p
join delim (p ∷ q ∷ rest) = p ++ delim ∷ join delim (q ∷ rest)

abbrev pub Without : ℕ → List ℕ → Type 0
Without delim = All (λ c. c ≢ delim)

-- A piece that `strtok_r` gives back: not empty, and without the delimiter.
pub record IsPiece (delim : ℕ) (p : List ℕ) : Type 0 where
  pub filled : 1 ≤ length p
  pub whole : Without delim p

piece-filled : (p : List ℕ) (rest : List (List ℕ)) → 1 ≤ length p → piece p rest ≡ p ∷ rest
piece-filled [] rest h = absurd (omega (arith, h))
piece-filled (c ∷ p) rest h = refl

cut-piece :
    (delim : ℕ) (p s : List ℕ) → Without delim p → cut delim (p ++ delim ∷ s) ≡ (p, tokens delim s)
unfolding cut tokens
cut-piece delim [] s h = ground arith
cut-piece delim (c ∷ p) s h = ground (arith, h.0, cut-piece delim p s h.1)

cut-last : (delim : ℕ) (p : List ℕ) → Without delim p → cut delim p ≡ (p, [])
unfolding cut
cut-last delim [] h = refl
cut-last delim (c ∷ p) h = ground (arith, h.0, cut-last delim p h.1)

tokens-join :
    (delim : ℕ) (ps : List (List ℕ)) → All (IsPiece delim) ps → tokens delim (join delim ps) ≡ ps
unfolding tokens join
tokens-join delim [] h = unfold cut in refl
tokens-join delim (p ∷ []) h = rw (cut-last delim p h.0.whole) (piece-filled p [] h.0.filled)
tokens-join delim (p ∷ q ∷ rest) h =
    rw (cut-piece delim p (join delim (q ∷ rest)) h.0.whole, tokens-join delim (q ∷ rest) h.1)
      (piece-filled p (q ∷ rest) h.0.filled)

split_at-first :
    (delim : ℕ) (p s : List ℕ) → Without delim p → split_at delim (p ++ delim ∷ s) ≡ some (p, s)
unfolding split_at
split_at-first delim [] s h = ground arith
split_at-first delim (c ∷ p) s h = ground (arith, h.0, split_at-first delim p s h.1)

-- `NAME=COMMAND`, the words of the command separated by spaces, and the text of several oracles.
pub entry_of : Oracle → List ℕ
entry_of o = o.name ++ 61 ∷ join 32 o.argv

pub entries_of : List Oracle → List (List ℕ)
entries_of [] = []
entries_of (o ∷ oracles) = entry_of o ∷ entries_of oracles

abbrev pub BeginsWithout : ℕ → List ℕ → Type 0
BeginsWithout delim [] = Unit
BeginsWithout delim (c ∷ s) = c ≢ delim

-- A name without `=` and `;` that begins with no space, and at most 63 words, at least one, that are
-- not empty and have no space and no `;`.
pub record IsWritten (o : Oracle) : Type 0 where
  pub name : Without 61 o.name
  pub name_whole : Without 59 o.name
  pub begins : BeginsWithout 32 o.name
  pub some_words : 1 ≤ length o.argv
  pub few_words : length o.argv ≤ 63
  pub words : All (IsPiece 32) o.argv
  pub words_whole : All (Without 59) o.argv

join-Without :
    (d delim : ℕ) (ps : List (List ℕ)) → delim ≢ d → All (Without d) ps → Without d (join delim ps)
unfolding join
join-Without d delim [] ne h = tt
join-Without d delim (p ∷ []) ne h = h.0
join-Without d delim (p ∷ q ∷ rest) ne h =
    All-append _ p (delim ∷ join delim (q ∷ rest)) h.0 (ne, join-Without d delim (q ∷ rest) ne h.1)

length-entry : (p s : List ℕ) → 1 ≤ length (p ++ 61 ∷ s)
length-entry [] s = omega arith
length-entry (c ∷ p) s = omega arith

entries-IsPiece :
    (oracles : List Oracle) → All IsWritten oracles → All (IsPiece 59) (entries_of oracles)
unfolding entries_of entry_of
entries-IsPiece [] h = tt
entries-IsPiece (o ∷ oracles) h = (
  record {
    filled = length-entry o.name (join 32 o.argv);
    whole =
        All-append _ o.name (61 ∷ join 32 o.argv) h.0.name_whole
          (omega arith, join-Without 59 32 o.argv (omega arith) h.0.words_whole);
  },
  entries-IsPiece oracles h.1,
)

skip_spaces-entry : (p s : List ℕ) → BeginsWithout 32 p → skip_spaces (p ++ 61 ∷ s) ≡ p ++ 61 ∷ s
unfolding skip_spaces
skip_spaces-entry [] s h = refl
skip_spaces-entry (c ∷ p) s h = ground (arith, h)

module _ (spawns : ℕ → List (List ℕ) → Bool) where
  start_entries-entries_of :
      (oracles : List Oracle) (noracles : ℕ)
      → noracles + length oracles ≤ oracle_max
      → ((n : ℕ) (argv : List (List ℕ)) → spawns n argv ≡ true)
      → All IsWritten oracles
      → start_entries spawns (entries_of oracles) noracles ≡ some oracles
  unfolding start_entries entries_of entry_of start_command
  start_entries-entries_of [] noracles l runs h = refl
  start_entries-entries_of (o ∷ oracles) noracles l runs h =
      rw
        (
          skip_spaces-entry o.name (join 32 o.argv) h.0.begins,
          split_at-first 61 o.name (join 32 o.argv) h.0.name,
          tokens-join 32 o.argv h.0.words,
          take_within {A = List ℕ} 63 o.argv h.0.few_words,
          runs noracles o.argv,
          start_entries-entries_of oracles (noracles + 1) (omega (arith, l)) runs h.1,
        )
        (ground (arith, l, h.0.some_words, length-entry o.name (join 32 o.argv)))

  -- For at most 16 oracles, each with a name without `=` and `;` that begins with no space and with 1
  -- to 63 words that are not empty and have no space and no `;`: given the text in which `;` separates
  -- the oracles, `=` a name from its command, and spaces the words, `oracle_start` returns 0 if every
  -- pipe and process comes to be, and it has started these oracles, in this order.
  pub oracle_start-entries_of :
      (pid : ℕ) (dir : List ℕ) (rate : Rate) (oracles : List Oracle)
      → length oracles ≤ oracle_max
      → ((n : ℕ) (argv : List (List ℕ)) → spawns n argv ≡ true)
      → All IsWritten oracles
      → (st : Started) × (oracle_start spawns pid (join 59 (entries_of oracles)) dir rate ≡ some st)
        × (st.oracles ≡ oracles)
  unfolding oracle_start
  oracle_start-entries_of pid dir rate oracles l runs h =
      rw
        (
          tokens-join 59 (entries_of oracles) (entries-IsPiece oracles h),
          start_entries-entries_of oracles 0 (omega (arith, l)) runs h,
        )
        (_, refl, refl)
