-- ===== src/Replay/Main.antt =====
-- `main` of src/replay.c. The strings of `argv` have their bytes by a parameter, and the builds'
-- `init`, which sets up libsecp, has no part in it.
use diffsecp.Prelude.{ℕ, ◌+◌, ◌≤◌, List, [], ◌∷◌, Bool, true, false, Option, none, some, String}
use diffsecp.Prelude.{
  ◌≡◌, ◌≢◌, ◌⊎◌, inl, inr, refl, sym, ap, ◌∙◌, arith, Bool-cases, Option-cases, if◌then◌else◌,
  length,
}
use text.Mathlib.Text.{◌==◌ as str_eq}
use text.Mathlib.TextEquality.{eq_iff}
use diffsecp.Replay.{Target, Files, Output, find_target, read_input, replay_paths}
use diffsecp.Replay.Lines.{target_name, find_target_iff}
use diffsecp.Replay.Dump.{dump, dump_read}
use mathlib.Core.Bool.{false≢true}
use diffsecp.Replay.Ends.{replay_paths-terminates}

-- `argv` as `main` takes it apart.
pub data Request : Type 0 where
  usage : Request
  paths : String → Request
  dump_file : String → String → Request

unfoldable pub request : List String → Request
request [] = usage
request (program ∷ []) = usage
request (program ∷ name ∷ []) = paths name
request (program ∷ flag ∷ name ∷ []) = usage
request (program ∷ flag ∷ name ∷ path ∷ []) =
    if str_eq flag "-d" then dump_file name path else usage
request (program ∷ flag ∷ name ∷ path ∷ more ∷ rest) = usage

module _ (bytes : String → List ℕ) (files : Files) (targets : Target → List ℕ → List ℕ) where
  abbrev pub replay_named : String → Bool → List ℕ → Option Target → Output
  replay_named name error s none = record { printed = []; code = 2 }
  replay_named name error s (some t) = replay_paths files (bytes name) (targets t) error s

  abbrev pub dump_named : String → Option Target → Output
  dump_named path none = record { printed = []; code = 2 }
  dump_named path (some t) = dump (targets t) files (bytes path)

  abbrev pub serve : Bool → List ℕ → Request → Output
  serve error s usage = record { printed = []; code = 2 }
  serve error s (paths name) = replay_named name error s (find_target name)
  serve error s (dump_file name path) = dump_named path (find_target name)

  -- stdin is `s`, and `error` what `ferror` says at its end.
  unfoldable pub main : List String → Bool → List ℕ → Output
  main argv error s = serve error s (request argv)

-- A command line that names a target.
pub data IsCommand (argv : List String) : Type 0 where
  paths_command :
      (program : String) (t : Target) → argv ≡ program ∷ target_name t ∷ [] → IsCommand argv
  dump_command :
      (program : String) (t : Target) (path : String)
      → argv ≡ program ∷ "-d" ∷ target_name t ∷ path ∷ []
      → IsCommand argv

unnamed : (name : String) (t : Target) → find_target name ≡ none → name ≢ target_name t
unnamed name t e h = let found = (find_target_iff name t).1 h in cc

same_name : (p p' n n' : String) → p ∷ n ∷ [] ≡ p' ∷ n' ∷ [] → n ≡ n'
same_name p p' n n' e = cc

same_dump :
    (p p' f f' n n' d d' : String)
    → p ∷ f ∷ n ∷ d ∷ [] ≡ p' ∷ f' ∷ n' ∷ d' ∷ []
    → (f ≡ f') × (n ≡ n')
same_dump p p' f f' n n' d d' e = (cc, cc)

-- Command lines that name no target: of another length, with another flag, or with another name.
other_length : (argv : List String) → length argv ≢ 2 → length argv ≢ 4 → ¬ IsCommand argv
other_length argv h k (paths_command program t e) = h (ap length e)
other_length argv h k (dump_command program t path e) = k (ap length e)

other_name : (p name : String) → find_target name ≡ none → ¬ IsCommand (p ∷ name ∷ [])
other_name p name h (paths_command program t e) = unnamed name t h (same_name _ _ _ _ e)
other_name p name h (dump_command program t path e) = absurd (omega (arith, ap length e))

other_dump :
    (p flag name path : String)
    → (str_eq flag "-d" ≡ false) ⊎ (find_target name ≡ none)
    → ¬ IsCommand (p ∷ flag ∷ name ∷ path ∷ [])
other_dump p flag name path h (paths_command program t e) = absurd (omega (arith, ap length e))
other_dump p flag name path (inl h) (dump_command program t path' e) =
    false≢true (sym h ∙ (eq_iff flag "-d").1 (same_dump _ _ _ _ _ _ _ _ e).0)
other_dump p flag name path (inr h) (dump_command program t path' e) =
    unnamed name t h (same_dump _ _ _ _ _ _ _ _ e).1

dump-exits : (fn : List ℕ → List ℕ) (files : Files) (path : List ℕ) → (dump fn files path).code ≤ 1
unfolding dump dump_read
dump-exits fn files path = read_exits (read_input files path)
  where
    read_exits : (o : Option (List ℕ)) → (dump_read fn o).code ≤ 1
    read_exits none = omega arith
    read_exits (some input) = ground arith

module _ (bytes : String → List ℕ) (files : Files) (targets : Target → List ℕ → List ℕ) where
  -- What a command line does.
  pub expected : (argv : List String) → Bool → List ℕ → IsCommand argv → Output
  expected argv error s (paths_command program t e) =
      replay_paths files (bytes (target_name t)) (targets t) error s
  expected argv error s (dump_command program t path e) = dump (targets t) files (bytes path)

  -- The command line was served, or nothing was printed and the program exits with 2.
  pub IsServed : List String → Bool → List ℕ → Output → Type 0
  IsServed argv error s o =
      ((c : IsCommand argv) × (o ≡ expected argv error s c) × (o.code ≤ 1))
      ⊎ ((¬ IsCommand argv) × (o ≡ record { printed = []; code = 2 }))

  named-IsServed :
      (program name : String) (error : Bool) (s : List ℕ)
      → IsServed
          (program ∷ name ∷ [])
          error
          s
          (replay_named bytes files targets name error s (find_target name))
  unfolding expected IsServed
  named-IsServed program name error s = elim (Option-cases (find_target name)) [
    | inl e ↦ rw e (inr (other_name program name e, refl))
    | inr (t, e) ↦
        let named : name ≡ target_name t = (find_target_iff name t).0 e in
        rw e (
          inl (
            paths_command program t (ap (λ n. program ∷ n ∷ []) named),
            ap (λ n. replay_paths files (bytes n) (targets t) error s) named,
            (replay_paths-terminates files (bytes name) (targets t) error s (length s + 1)
                (omega arith)).0,
          ))
  ]

  dump-IsServed :
      (program flag name path : String) (error : Bool) (s : List ℕ)
      → str_eq flag "-d" ≡ true
      → IsServed
          (program ∷ flag ∷ name ∷ path ∷ [])
          error
          s
          (dump_named bytes files targets path (find_target name))
  unfolding expected IsServed
  dump-IsServed program flag name path error s f = elim (Option-cases (find_target name)) [
    | inl e ↦ rw e (inr (other_dump program flag name path (inr e), refl))
    | inr (t, e) ↦
        let named : name ≡ target_name t = (find_target_iff name t).0 e in
        let flagged : flag ≡ "-d" = (eq_iff flag "-d").0 f in
        rw e (
          inl (
            dump_command program t path (rw (flagged, named) refl),
            refl,
            dump-exits (targets t) files (bytes path),
          ))
  ]

  unserved :
      (argv : List String) (error : Bool) (s : List ℕ)
      → ¬ IsCommand argv
      → IsServed argv error s (record { printed = []; code = 2 })
  unfolding IsServed
  unserved argv error s h = inr (h, refl)

  -- A command line that names one of the targets, alone or between `-d` and a path, runs `replay_paths`
  -- or `dump` for that target, and the program exits with 0 or 1; on any other it prints nothing and
  -- exits with 2.
  pub main-IsServed :
      (argv : List String) (error : Bool) (s : List ℕ)
      → IsServed argv error s (main bytes files targets argv error s)
  unfolding main request
  main-IsServed [] error s = unserved [] error s (other_length [] (omega arith) (omega arith))
  main-IsServed (p ∷ []) error s =
      unserved _ error s (other_length (p ∷ []) (omega arith) (omega arith))
  main-IsServed (p ∷ name ∷ []) error s = named-IsServed p name error s
  main-IsServed (p ∷ flag ∷ name ∷ []) error s =
      unserved _ error s (other_length (p ∷ flag ∷ name ∷ []) (omega arith) (omega arith))
  main-IsServed (p ∷ flag ∷ name ∷ path ∷ []) error s = elim (Bool-cases (str_eq flag "-d")) [
    | inl dumps ↦ rw dumps (dump-IsServed p flag name path error s dumps)
    | inr other ↦ rw other (unserved _ error s (other_dump p flag name path (inl other)))
  ]
  main-IsServed (p ∷ flag ∷ name ∷ path ∷ more ∷ rest) error s =
      unserved _ error s
        (other_length (p ∷ flag ∷ name ∷ path ∷ more ∷ rest) (omega arith) (omega arith))
