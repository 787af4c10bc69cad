-- ===== src/Replay.antt =====
-- The replay program of src/replay.c, which prints a digest of each input's transcript.
pub mod Lines
pub mod Dump
pub mod Ends
pub mod Main
use diffsecp.Limits.{diffsecp_input_max}
use diffsecp.Prelude.{
  ℕ, zero, suc, ◌+◌, ◌/◌, ◌%◌, ◌^◌, ◌<◌, List, [], ◌∷◌, ◌++◌, Bool, true, false, not, ◌&&◌, ◌||◌,
  Option, none, some,
}
use diffsecp.Prelude.{ltb, ◌==◌, if◌then◌else◌, length, get_or, take, drop, String}
use text.Mathlib.Text.{◌==◌ as str_eq}
use diffsecp.Digest.{diffsecp_digest}
use diffsecp.Hex.{hex}

-- `DIFFSECP_TARGETS`, with the member of `struct diffsecp_variant` that each names.
pub data Target : Type 0 where
  ecdsa schnorrsig field scalar group keys ellswift recovery musig silentpayments : Target

-- The `DIFFSECP_MATCH` lines; `none` is the `NULL` at the end.
unfoldable pub find_target : String → Option Target
find_target name =
    if str_eq name "ecdsa"
    then some ecdsa
    else if str_eq name "schnorrsig"
    then some schnorrsig
    else if str_eq name "field"
    then some field
    else if str_eq name "scalar"
    then some scalar
    else if str_eq name "group"
    then some group
    else if str_eq name "keys"
    then some keys
    else if str_eq name "ellswift"
    then some ellswift
    else if str_eq name "recovery"
    then some recovery
    else if str_eq name "musig"
    then some musig
    else if str_eq name "silentpayments"
    then some silentpayments
    else none

-- What stands in a file, or `none` where it cannot be opened or read.
abbrev pub Files : Type 0
Files = List ℕ → Option (List ℕ)

abbrev pub clip : Option (List ℕ) → Option (List ℕ)
clip none = none
clip (some b) = some (take (diffsecp_input_max + 1) b)

-- At most one byte over the limit is read.
unfoldable pub read_input : Files → List ℕ → Option (List ℕ)
read_input files path = clip (files path)

-- `fgets(path, k + 1, stdin)`: the bytes that it stores, what is left of stdin, and whether it met
-- the end of the file.
unfoldable pub fgets : ℕ → List ℕ → List ℕ × List ℕ × Bool
fgets zero s = ([], s, false)
fgets (suc k) [] = ([], [], true)
fgets (suc k) (c ∷ s) =
    let (line, rest, eof) = fgets k s in
    if c == 10 then (c ∷ [], s, false) else (c ∷ line, rest, eof)

-- `strcspn(path, "\r\n")`, which also stops at the terminator.
unfoldable pub strcspn : List ℕ → ℕ
strcspn [] = 0
strcspn (c ∷ s) = if c == 0 || c == 10 || c == 13 then 0 else suc (strcspn s)

-- What the program has printed and the code that it exits with, 2 while it runs.
pub record Output : Type 0 where
  pub printed : List ℕ
  pub code : ℕ

-- `printf("%s - %s\n", name, path)`
unfoldable pub skipped_line : List ℕ → List ℕ → List ℕ
skipped_line name path = name ++ (32 ∷ 45 ∷ 32 ∷ (path ++ 10 ∷ []))

-- `printf("%s %08lx%08lx %s\n", name, h >> 32, h & 0xffffffff, path)`
unfoldable pub answer_line : List ℕ → ℕ → List ℕ → List ℕ
answer_line name h path =
    name ++ (32 ∷ (hex 8 (h / 2 ^ 32) ++ (hex 8 (h % 2 ^ 32) ++ (32 ∷ (path ++ 10 ∷ [])))))

module _ (files : Files) (name : List ℕ) (fn : List ℕ → List ℕ) where
  abbrev pub replay_input : List ℕ → List ℕ → List ℕ
  replay_input path input =
      let transcript = fn input in
      if ltb diffsecp_input_max (length input)
      then skipped_line name path
      else answer_line name (diffsecp_digest transcript (length transcript)) path

  -- What one path prints; `none` where the input cannot be read.
  abbrev pub replay_read : List ℕ → Option (List ℕ) → Option (List ℕ)
  replay_read path none = none
  replay_read path (some input) = some (replay_input path input)

  unfoldable pub replay_path : List ℕ → Option (List ℕ)
  replay_path path = replay_read path (read_input files path)

  abbrev pub then_print : Option (List ℕ) → Output → Output
  then_print none rest = record { printed = []; code = 1 }
  then_print (some text) rest = record { printed = text ++ rest.printed; code = rest.code }

  -- The loop of `replay_paths` with fuel, which a byte of stdin pays for in each round. `error` is
  -- `ferror(stdin)` at the end; a line that the error cuts short is one for which `fgets` returns
  -- `NULL`.
  unfoldable pub replay_loop : ℕ → Bool → List ℕ → Output
  replay_loop zero error s = record { printed = []; code = 2 }
  replay_loop (suc fuel) error s =
      let (path, rest, eof) = fgets 4095 s in
      let n = strcspn path in
      let next = replay_loop fuel error rest in
      if length path == 0 || error && eof
      then record { printed = []; code = if error then 1 else 0 }
      else if get_or path n 0 == 0 && not eof
      then record { printed = []; code = 1 }
      else if n == 0
      then next
      else then_print (replay_path (take n path)) next

  unfoldable pub replay_paths : Bool → List ℕ → Output
  replay_paths error s = replay_loop (length s + 1) error s
