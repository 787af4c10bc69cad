-- ===== src/Oracle/Verdict.antt =====
-- Which answers `oracle_check` accepts, and which oracle it names.
use diffsecp.Prelude.{
  ℕ, zero, suc, ◌-◌, ◌/◌, ◌%◌, ◌^◌, ◌<◌, List, [], ◌∷◌, ◌++◌, none, some, true, false,
}
use diffsecp.Prelude.{
  ◌≡◌, ◌≢◌, ◌↔◌, refl, ap, sym, ◌∙◌, arith, ◌⊎◌, inl, inr, All, take, length, get_or, Bool-cases,
  same_bytes, same_bytes_sound, same_bytes_refl, subst,
}
use mathlib.Core.List.{append_assoc}
use diffsecp.Hex.{hex}
use diffsecp.Hex.Digits.{
  IsHexDigit, hex_digits, length-hex, hex_injective, hex_halves, snoc_injective,
}
use diffsecp.Oracle.{
  answer_agrees, strchr_space, c_string, Turn, turn_line, turn_result, Diverged, check_loop,
  oracle_check,
}
use diffsecp.Replay.{answer_line}

-- A byte of a target's name, as far as the oracle's line is concerned.
abbrev pub IsNameByte : ℕ → Type 0
IsNameByte c = (c ≢ 32) × (c ≢ 0)

strchr-append :
    (name rest : List ℕ) → All IsNameByte name → strchr_space (name ++ 32 ∷ rest) ≡ some (32 ∷ rest)
unfolding strchr_space
strchr-append [] rest n = refl
strchr-append (c ∷ name) rest n = ground (arith, n.0.0, n.0.1, strchr-append name rest n.1)

-- The first 16 bytes of a list that begins with 16, and the byte behind them.
take-front : (n : ℕ) (xs ys : List ℕ) → length xs ≡ n → take n (xs ++ ys) ≡ xs
take-front zero [] ys h = refl
take-front zero (x ∷ xs) ys h = absurd (omega arith)
take-front (suc n) [] ys h = absurd (omega arith)
take-front (suc n) (x ∷ xs) ys h = ap (λ l. x ∷ l) (take-front n xs ys (omega arith))

get_or-behind :
    (n : ℕ) (xs : List ℕ) (y : ℕ) (ys : List ℕ) → length xs ≡ n → get_or (xs ++ y ∷ ys) n 0 ≡ y
get_or-behind zero [] y ys h = refl
get_or-behind zero (x ∷ xs) y ys h = absurd (omega arith)
get_or-behind (suc n) [] y ys h = absurd (omega arith)
get_or-behind (suc n) (x ∷ xs) y ys h = get_or-behind n xs y ys (omega arith)

-- The comparison of a line that has a digest of 16 digits in its second word.
agrees-digest :
    (name digits path : List ℕ) (reference : ℕ)
    → All IsNameByte name
    → length digits ≡ 16
    → answer_agrees reference (name ++ 32 ∷ (digits ++ 32 ∷ path))
      ≡ same_bytes digits (hex 16 reference)
unfolding answer_agrees
agrees-digest name digits path reference n l =
    rw
      (
        strchr-append name (digits ++ 32 ∷ path) n,
        take-front 16 digits (32 ∷ path) l,
        get_or-behind 16 digits 32 path l,
      )
      (ground arith)

-- The line that replay prints, up to its newline.
pub answer_line-front :
    (name path : List ℕ) (h : ℕ)
    → answer_line name h path ≡ (name ++ (32 ∷ (hex 16 h ++ 32 ∷ path))) ++ 10 ∷ []
unfolding answer_line
answer_line-front name path h =
    ap (λ l. name ++ (32 ∷ l))
      (sym (append_assoc (hex 8 (h / 2 ^ 32)) (hex 8 (h % 2 ^ 32)) (32 ∷ (path ++ 10 ∷ [])))
        ∙ ap (λ d. d ++ (32 ∷ (path ++ 10 ∷ [])))
            (sym (hex_halves 16 8 8 (h / 2 ^ 32) (h % 2 ^ 32) h refl (omega arith) (omega arith)))
        ∙ sym (append_assoc (hex 16 h) (32 ∷ path) (10 ∷ [])))
    ∙ sym (append_assoc name (32 ∷ (hex 16 h ++ 32 ∷ path)) (10 ∷ []))

-- `replay` and the oracle agree on their format: of a target's name without a space or a NUL and two
-- digests of 64 bits, `oracle_check` accepts the line that `replay_paths` prints for the one digest,
-- its newline taken off, exactly when it is the reference digest.
pub answer_agrees-answer_line :
    (name path line : List ℕ) (h reference : ℕ)
    → All IsNameByte name
    → h < 2 ^ 64
    → reference < 2 ^ 64
    → answer_line name h path ≡ line ++ 10 ∷ []
    → (answer_agrees reference line ≡ true) ↔ (h ≡ reference)
answer_agrees-answer_line name path line h reference n p q e =
    rw (← front, agrees-digest name (hex 16 h) path reference n (length-hex 16 h))
      (
        (λ same.
            hex_injective 16 h reference p q (same_bytes_sound (hex 16 h) (hex 16 reference) same)),
        (λ same. rw same (same_bytes_refl (hex 16 reference))),
      )
  where
    front : name ++ (32 ∷ (hex 16 h ++ 32 ∷ path)) ≡ line
    front = (snoc_injective _ line 10 10 (sym (answer_line-front name path h) ∙ e)).0

second_digit :
    (a b : ℕ) (rest digits : List ℕ) → All IsHexDigit digits → a ∷ b ∷ rest ≡ digits → IsHexDigit b
second_digit a b rest digits d e = let d' = subst (All IsHexDigit) (sym e) d in d'.1.0

-- A line that begins with "no an" is not taken for a digest.
pub no_answer_diverges :
    (text : List ℕ) (reference : ℕ)
    → answer_agrees reference (110 ∷ 111 ∷ 32 ∷ 97 ∷ 110 ∷ text) ≡ false
unfolding answer_agrees strchr_space
no_answer_diverges text reference =
    elim (Bool-cases (same_bytes (97 ∷ 110 ∷ take 14 text) (hex 16 reference))) [
      | inl same ↦
          let n =
            second_digit 97 110 (take 14 text) (hex 16 reference) (hex_digits 16 reference)
              (same_bytes_sound _ _ same) in
          absurd (omega (arith, n.1))
      | inr differs ↦ rw differs
    ]

abbrev pub Agrees : ℕ → Turn → Type 0
Agrees reference t = answer_agrees reference (turn_line t) ≡ true

-- A divergence that was found stays found.
check_loop-some :
    (reference size : ℕ) (d : Diverged) (turns : List Turn)
    → check_loop reference size (some d) turns ≡ some d
unfolding check_loop
check_loop-some reference size d [] = refl
check_loop-some reference size d (t ∷ turns) = check_loop-some reference size d turns

turn_result_good :
    (reference size : ℕ) (t : Turn) → Agrees reference t → turn_result reference size t ≡ none
unfolding turn_result
turn_result_good reference size t h = rw h

-- Oracles that all answer the reference digest pass.
pub oracle_check-none :
    (reference size : ℕ) (turns : List Turn)
    → All (Agrees reference) turns
    → oracle_check reference size turns ≡ none
unfolding oracle_check check_loop
oracle_check-none reference size [] h = refl
oracle_check-none reference size (t ∷ turns) h =
    rw (turn_result_good reference size t h.0) (oracle_check-none reference size turns h.1)

-- `oracle_check` returns `NULL` exactly when every oracle answers the reference digest; otherwise it
-- names the first oracle that does not, with that oracle's answer, up to a NUL and cut to the caller's
-- buffer, although it goes on to read the others.
pub oracle_check-first :
    (reference size : ℕ) (turns : List Turn)
    → ((oracle_check reference size turns ≡ none) × All (Agrees reference) turns)
      ⊎ ((before : List Turn) × (t : Turn) × (after : List Turn) × (turns ≡ before ++ t ∷ after)
          × All (Agrees reference) before
          × (answer_agrees reference (turn_line t) ≡ false)
          × (oracle_check reference size turns
              ≡ some (record { name = t.name; answer = take (size - 1) (c_string (turn_line t)) })))
unfolding oracle_check check_loop
oracle_check-first reference size [] = inl (refl, tt)
oracle_check-first reference size (t ∷ turns) =
    elim (Bool-cases (answer_agrees reference (turn_line t))) [
      | inl good ↦
          rw (turn_result_good reference size t good)
            (elim (oracle_check-first reference size turns) [
              | inl (e, a) ↦ inl (e, (good, a))
              | inr (b, u, a, e, g, bad, r) ↦
                  inr (t ∷ b, u, a, ap (λ l. t ∷ l) e, (good, g), bad, r)
            ])
      | inr bad ↦ inr (
        [],
        t,
        turns,
        refl,
        tt,
        bad,
        (unfold turn_result in rw bad (check_loop-some reference size _ turns)),
      )
    ]
