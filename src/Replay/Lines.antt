-- ===== src/Replay/Lines.antt =====
-- What the replay program prints for a list of paths, and which targets it knows.
use diffsecp.Prelude.{
  ℕ, zero, suc, ◌+◌, ◌≤◌, ◌<◌, List, [], ◌∷◌, ◌++◌, true, false, Option, none, some, String,
}
use diffsecp.Prelude.{
  ◌≡◌, ◌≢◌, refl, ◌∙◌, ap, sym, arith, length, length-append, get_or, take, take_within, All,
  Bool-cases, inl, inr, ltb, ltb→lt, lt→ltb, ltb-false, if◌then◌else◌, length-take, ◌/◌, ◌%◌, ◌^◌,
  ◌↔◌,
}
use mathlib.Core.List.{append_assoc}
use diffsecp.Digest.{diffsecp_digest}
use diffsecp.Hex.{hex}
use diffsecp.Hex.Digits.{hex_halves}
use diffsecp.Replay.{skipped_line, answer_line}
use text.Mathlib.TextEquality.{eq_iff}
use text.Mathlib.Text.{◌==◌ as str_eq}
use diffsecp.Replay.{
  Target, find_target, Files, fgets, strcspn, read_input, replay_path, replay_loop, replay_paths,
}

-- The name of each target.
pub target_name : Target → String
target_name Target.ecdsa = "ecdsa"
target_name Target.schnorrsig = "schnorrsig"
target_name Target.field = "field"
target_name Target.scalar = "scalar"
target_name Target.group = "group"
target_name Target.keys = "keys"
target_name Target.ellswift = "ellswift"
target_name Target.recovery = "recovery"
target_name Target.musig = "musig"
target_name Target.silentpayments = "silentpayments"

find_target-target_name : (t : Target) → find_target (target_name t) ≡ some t
unfolding find_target target_name
find_target-target_name Target.ecdsa = refl
find_target-target_name Target.schnorrsig = refl
find_target-target_name Target.field = refl
find_target-target_name Target.scalar = refl
find_target-target_name Target.group = refl
find_target-target_name Target.keys = refl
find_target-target_name Target.ellswift = refl
find_target-target_name Target.recovery = refl
find_target-target_name Target.musig = refl
find_target-target_name Target.silentpayments = refl

-- The bytes that a path may hold.
abbrev pub IsPathByte : ℕ → Type 0
IsPathByte c = (c ≢ 0) × (c ≢ 10) × (c ≢ 13)

-- A path that the program takes: not empty, short enough for its buffer, and on one line.
pub record IsPath (p : List ℕ) : Type 0 where
  pub filled : 1 ≤ length p
  pub fits : length p + 1 ≤ 4095
  pub bytes : All IsPathByte p

fgets_line :
    (k : ℕ) (p rest : List ℕ)
    → All IsPathByte p
    → length p + 1 ≤ k
    → fgets k (p ++ 10 ∷ rest) ≡ (p ++ 10 ∷ [], rest, false)
unfolding fgets
fgets_line zero p rest b h = absurd (omega arith)
fgets_line (suc k) [] rest b h = refl
fgets_line (suc k) (c ∷ p) rest b h = ground (arith, b.0.1, fgets_line k p rest b.1 (omega arith))

strcspn_line : (p : List ℕ) → All IsPathByte p → strcspn (p ++ 10 ∷ []) ≡ length p
unfolding strcspn
strcspn_line [] b = refl
strcspn_line (c ∷ p) b = ground (arith, b.0.0, b.0.1, b.0.2, strcspn_line p b.1)

newline_at : (p : List ℕ) → get_or (p ++ 10 ∷ []) (length p) 0 ≡ 10
newline_at [] = refl
newline_at (c ∷ p) = newline_at p

take_path : (p : List ℕ) → take (length p) (p ++ 10 ∷ []) ≡ p
take_path [] = refl
take_path (c ∷ p) = ap (λ l. c ∷ l) (take_path p)

-- A file over the limit is still over it when only one byte more is read.
long_clipped : (xs : List ℕ) → ltb 4096 (length xs) ≡ true → ltb 4096 (length (take 4097 xs)) ≡ true
long_clipped xs h =
    lt→ltb 4096 _ (omega (arith, ltb→lt 4096 (length xs) h, length-take {0} 4097 xs))

-- A path and what its file holds.
abbrev pub Item : Type 0
Item = List ℕ × List ℕ

-- One path to a line.
abbrev pub unlines : List Item → List ℕ
unlines [] = []
unlines (i ∷ items) = i.0 ++ 10 ∷ unlines items

length-unlines : (items : List Item) → length items ≤ length (unlines items)
length-unlines [] = omega arith
length-unlines (i ∷ items) =
    omega (arith, length-append {0} i.0 (10 ∷ unlines items), length-unlines items)

module _ (files : Files) (name : List ℕ) (fn : List ℕ → List ℕ) where
  abbrev pub IsReadable : Item → Type 0
  IsReadable i = IsPath i.0 × (files i.0 ≡ some i.1)

  -- The target's name, then the sixteen digits of the transcript's digest, or a dash for an input
  -- of more than 4096 bytes, then the path.
  pub expected_line : Item → List ℕ
  expected_line i =
      let digest =
        if ltb 4096 (length i.1)
        then 45 ∷ []
        else hex 16 (diffsecp_digest (fn i.1) (length (fn i.1))) in
      name ++ (32 ∷ (digest ++ (32 ∷ (i.0 ++ 10 ∷ []))))

  abbrev pub expected_lines : List Item → List ℕ
  expected_lines [] = []
  expected_lines (i ∷ items) = expected_line i ++ expected_lines items

  digest_halves :
      (t : List ℕ)
      → hex 8 (diffsecp_digest t (length t) / 2 ^ 32)
          ++ hex 8 (diffsecp_digest t (length t) % 2 ^ 32)
        ≡ hex 16 (diffsecp_digest t (length t))
  digest_halves t =
      let h = diffsecp_digest t (length t) in
      sym (hex_halves 16 8 8 (h / 2 ^ 32) (h % 2 ^ 32) h refl (omega arith) (omega arith))

  replay_path_line :
      (i : Item) → IsReadable i → replay_path files name fn i.0 ≡ some (expected_line i)
  unfolding replay_path read_input expected_line skipped_line answer_line
  replay_path_line i r = elim (Bool-cases (ltb 4096 (length i.1))) [
    | inl long ↦ rw (r.1, long, long_clipped i.1 long) refl
    | inr short ↦
        rw (r.1, take_within {0} 4097 i.1 (omega (arith, ltb-false 4096 (length i.1) short)), short)
          (ap (λ d. some (name ++ (32 ∷ d)))
            (sym (append_assoc (hex 8 (diffsecp_digest (fn i.1) (length (fn i.1)) / 2 ^ 32)) _ _)
              ∙ ap (λ d. d ++ (32 ∷ (i.0 ++ 10 ∷ []))) (digest_halves (fn i.1))))
  ]

  replay_loop_lines :
      (fuel : ℕ) (items : List Item)
      → length items < fuel
      → All IsReadable items
      → replay_loop files name fn fuel false (unlines items)
        ≡ record { printed = expected_lines items; code = 0 }
  unfolding replay_loop
  replay_loop_lines zero items h r = elim h [ ]
  replay_loop_lines (suc fuel) [] h r = unfold fgets in refl
  replay_loop_lines (suc fuel) (i ∷ items) h r =
      rw
        (
          fgets_line 4095 i.0 (unlines items) r.0.0.bytes r.0.0.fits,
          strcspn_line i.0 r.0.0.bytes,
          newline_at i.0,
          take_path i.0,
          replay_path_line i r.0,
          replay_loop_lines fuel items (omega arith) r.1,
        )
        (ground (arith, r.0.0.filled, length-append {0} i.0 (10 ∷ [])))

  -- Fed any number of readable paths, one to a line, each of 1 to 4094 bytes without a NUL, a newline
  -- or a carriage return, and with no error on stdin, `replay_paths` prints for each, in order, the
  -- target's name, the digest of the transcript of what the file holds in sixteen digits (a dash
  -- for a file of more than 4096 bytes) and the path, and then returns 0.
  pub replay_paths-lines :
      (items : List Item)
      → All IsReadable items
      → replay_paths files name fn false (unlines items)
        ≡ record { printed = expected_lines items; code = 0 }
  unfolding replay_paths
  replay_paths-lines items r =
      replay_loop_lines (length (unlines items) + 1) items (omega (arith, length-unlines items)) r

-- What one path prints whose file is within the limit.
pub replay_path-answer_line :
    (files : Files) (name : List ℕ) (fn : List ℕ → List ℕ) (path input : List ℕ)
    → files path ≡ some input
    → length input ≤ 4096
    → replay_path files name fn path
      ≡ some (answer_line name (diffsecp_digest (fn input) (length (fn input))) path)
unfolding replay_path read_input
replay_path-answer_line files name fn path input e l =
    let short : ltb 4096 (length input) ≡ false = ground (arith, l) in
    rw (e, take_within {0} 4097 input (omega (arith, l)), short) refl

abbrev IsNamed : String → Option Target → Type 0
IsNamed s none = Unit
IsNamed s (some t) = s ≡ target_name t

-- What a chain of tests finds is named by what is sought.
IsNamed-if :
    (s n : String) (t : Target) (o : Option Target)
    → n ≡ target_name t
    → IsNamed s o
    → IsNamed s (if str_eq s n then some t else o)
IsNamed-if s n t o e h = elim (Bool-cases (str_eq s n)) [
  | inl found ↦ rw found ((eq_iff s n).0 found ∙ e)
  | inr other ↦ rw other h
]

find_target-IsNamed : (s : String) → IsNamed s (find_target s)
unfolding find_target target_name
find_target-IsNamed s = IsNamed-if s "ecdsa" Target.ecdsa _ refl (
    IsNamed-if s "schnorrsig" Target.schnorrsig _ refl (
      IsNamed-if s "field" Target.field _ refl (
        IsNamed-if s "scalar" Target.scalar _ refl (
          IsNamed-if s "group" Target.group _ refl (
            IsNamed-if s "keys" Target.keys _ refl (
              IsNamed-if s "ellswift" Target.ellswift _ refl (
                IsNamed-if s "recovery" Target.recovery _ refl (
                  IsNamed-if s "musig" Target.musig _ refl
                    (IsNamed-if s "silentpayments" Target.silentpayments none refl tt)))))))))

-- `find_target` finds each of the ten targets by its name, and by no other name.
pub find_target_iff : (s : String) (t : Target) → (find_target s ≡ some t) ↔ (s ≡ target_name t)
find_target_iff s t =
    ((λ h. rw h at (find_target-IsNamed s)), (λ h. ap find_target h ∙ find_target-target_name t))
