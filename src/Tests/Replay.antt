-- ===== src/Tests/Replay.antt =====
-- The replay program at concrete inputs.
use diffsecp.Replay.Main.{main, IsServed, main-IsServed}
use diffsecp.Replay.{replay_loop}
use diffsecp.Replay.Ends.{replay_paths-terminates}
use diffsecp.Prelude.{true, ◌≤◌}
use diffsecp.Prelude.{
  ℕ, List, [], ◌∷◌, ◌≡◌, ◌↔◌, refl, arith, false, Option, some, none, ◌==◌, if◌then◌else◌,
}
use diffsecp.Replay.{Target, Files, find_target, replay_paths}
use diffsecp.Replay.Dump.{read_dump, dump, dump-read_dump}
use diffsecp.Replay.Lines.{
  Item, unlines, target_name, find_target_iff, expected_lines, replay_paths-lines,
}

-- The files `p` and `q`; the second is empty.
abbrev file_of : ℕ → Option (List ℕ)
file_of c = if c == 112 then some (1 ∷ 2 ∷ []) else if c == 113 then some [] else none

abbrev files : Files
files [] = none
files (c ∷ p) = file_of c

abbrev items : List Item
items = (112 ∷ [], 1 ∷ 2 ∷ []) ∷ (113 ∷ [], []) ∷ []

replay_paths-lines_example :
    replay_paths files (102 ∷ []) (λ input. input) false (unlines items)
    ≡ record { printed = expected_lines files (102 ∷ []) (λ input. input) items; code = 0 }
replay_paths-lines_example =
    replay_paths-lines files (102 ∷ []) (λ input. input) items
      (
        (record { filled = omega arith; fits = omega arith; bytes = omega arith }, refl),
        ((record { filled = omega arith; fits = omega arith; bytes = omega arith }, refl), tt),
      )

find_target_iff_example :
    (find_target "group" ≡ some Target.field) ↔ ("group" ≡ target_name Target.field)
find_target_iff_example = find_target_iff "group" Target.field

dump-read_dump_example :
    (read_dump (dump (λ input. 0 ∷ 255 ∷ input) files (112 ∷ [])).printed ≡ 0 ∷ 255 ∷ 1 ∷ 2 ∷ [])
    × ((dump (λ input. 0 ∷ 255 ∷ input) files (112 ∷ [])).code ≡ 0)
dump-read_dump_example =
    dump-read_dump (λ input. 0 ∷ 255 ∷ input) files (112 ∷ []) (1 ∷ 2 ∷ []) refl (omega arith)
      (omega arith, (omega arith, (omega arith, (omega arith, tt))))

-- A path that cannot be read, and one without a newline.
replay_paths-terminates_example :
    ((replay_paths files (102 ∷ []) (λ input. input) true (120 ∷ 10 ∷ 112 ∷ [])).code ≤ 1)
    × (replay_loop files (102 ∷ []) (λ input. input) 9 true (120 ∷ 10 ∷ 112 ∷ [])
        ≡ replay_paths files (102 ∷ []) (λ input. input) true (120 ∷ 10 ∷ 112 ∷ []))
replay_paths-terminates_example =
    replay_paths-terminates files (102 ∷ []) (λ input. input) true (120 ∷ 10 ∷ 112 ∷ []) 9
      (omega arith)

-- `replay -d field p`
main-IsServed_example :
    IsServed
      (λ name. 112 ∷ [])
      files
      (λ t input. input)
      ("replay" ∷ "-d" ∷ "field" ∷ "p" ∷ [])
      false
      []
      (main
        (λ name. 112 ∷ [])
        files
        (λ t input. input)
        ("replay" ∷ "-d" ∷ "field" ∷ "p" ∷ [])
        false
        [])
main-IsServed_example =
    main-IsServed (λ name. 112 ∷ []) files (λ t input. input) ("replay" ∷ "-d" ∷ "field" ∷ "p" ∷ [])
      false []
