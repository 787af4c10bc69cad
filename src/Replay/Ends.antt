-- ===== src/Replay/Ends.antt =====
-- `replay_paths` comes to an end: its fuel is never used up.
use diffsecp.Prelude.{
  ℕ, zero, suc, ◌+◌, ◌≤◌, ◌<◌, List, [], ◌∷◌, Bool, true, false, Option, none, some,
}
use diffsecp.Prelude.{◌≡◌, refl, sym, ap, arith, if◌then◌else◌, length}
use diffsecp.Replay.{Files, Output, fgets, then_print, replay_loop, replay_paths}

fgets-rest : (k : ℕ) (s : List ℕ) → length (fgets k s).1 ≤ length s
unfolding fgets
fgets-rest zero s = omega arith
fgets-rest (suc k) [] = omega arith
fgets-rest (suc k) (c ∷ s) = ground (arith, fgets-rest k s)

-- Each call of `fgets` takes a byte that is there.
fgets-takes : (k c : ℕ) (s : List ℕ) → length (fgets (suc k) (c ∷ s)).1 ≤ length s
unfolding fgets
fgets-takes k c s = ground (arith, fgets-rest k s)

-- Two runs that print the same and exit with 0 or 1.
record Ended (o o' : Output) : Type 0 where
  same : o ≡ o'
  exits : o.code ≤ 1

exit-Ended :
    (code : ℕ)
    → code ≤ 1
    → Ended (record { printed = []; code = code }) (record { printed = []; code = code })
exit-Ended code h = record { same = refl; exits = h }

if-Ended :
    (b : Bool) {o o' p p' : Output}
    → Ended o o'
    → Ended p p'
    → Ended (if b then o else p) (if b then o' else p')
if-Ended true h k = h
if-Ended false h k = k

module _ (files : Files) (name : List ℕ) (fn : List ℕ → List ℕ) where
  then_print-Ended :
      (t : Option (List ℕ)) (o o' : Output)
      → Ended o o'
      → Ended (then_print files name fn t o) (then_print files name fn t o')
  then_print-Ended none o o' h = exit-Ended 1 (omega arith)
  then_print-Ended (some text) o o' h = record {
    same = ap (λ r. then_print files name fn (some text) r) h.same;
    exits = h.exits;
  }

  replay_loop-Ended :
      (fuel fuel' : ℕ) (error : Bool) (s : List ℕ)
      → length s < fuel
      → length s < fuel'
      → Ended (replay_loop files name fn fuel error s) (replay_loop files name fn fuel' error s)
  unfolding replay_loop
  replay_loop-Ended zero fuel' error s h h' = absurd (omega (arith, h))
  replay_loop-Ended (suc fuel) zero error s h h' = absurd (omega (arith, h'))
  replay_loop-Ended (suc fuel) (suc fuel') error [] h h' =
      unfold fgets in exit-Ended _ (ground arith)
  replay_loop-Ended (suc fuel) (suc fuel') error (c ∷ s) h h' =
      let takes : length (fgets 4095 (c ∷ s)).1 ≤ length s = fgets-takes 4094 c s in
      let next =
        replay_loop-Ended fuel fuel' error (fgets 4095 (c ∷ s)).1 (omega (arith, h, takes))
          (omega (arith, h', takes)) in
      if-Ended _ (exit-Ended _ (ground arith))
        (if-Ended _ (exit-Ended 1 (omega arith)) (if-Ended _ next (then_print-Ended _ _ _ next)))

  -- Whatever stands on stdin and in the files, `replay_paths` comes to an end: it exits with 0 or 1,
  -- and more fuel than it has does not change what it prints or its exit code.
  pub replay_paths-terminates :
      (error : Bool) (s : List ℕ) (fuel : ℕ)
      → length s < fuel
      → ((replay_paths files name fn error s).code ≤ 1)
        × (replay_loop files name fn fuel error s ≡ replay_paths files name fn error s)
  unfolding replay_paths
  replay_paths-terminates error s fuel h =
      let e = replay_loop-Ended (length s + 1) fuel error s (omega arith) h in (e.exits, sym e.same)
