-- ===== src/Fuzz/Mutants/Builds.antt =====
-- What `run_mutants` finds over all the schemata builds.
use diffsecp.Prelude.{ℕ, ◌<◌, List, [], ◌∷◌, Bool, false, not, ◌&&◌, ◌||◌, none}
use diffsecp.Prelude.{◌≡◌, refl, ap, arith, All}
use diffsecp.Fuzz.Mutants.{
  Build, Mutants, Found, detect, run_schemata, run_build, check_build, builds_loop, publish,
  run_mutants,
}
use diffsecp.Fuzz.Mutants.Kills.{IsQuiet, triggers, kills, mutants_loop-Effect}

-- Some build has it.
abbrev pub any_build : (Build → Bool) → List Build → Bool
any_build p [] = false
any_build p (b ∷ bs) = p b || any_build p bs

-- From `f` to `g`, mutant `j` was triggered if `hit`, and killed if `kill`.
record Outcome (j : ℕ) (hit kill : Bool) (f g : Found) : Type 0 where
  infected : g.infected j ≡ (hit || f.infected j)
  ever_infected : g.mutants.ever_infected j ≡ (hit || f.mutants.ever_infected j)
  ever_killed : g.mutants.ever_killed j ≡ (f.mutants.ever_killed j || kill)
  killed : g.mutants.killed j ≡ (f.mutants.killed j || (not (f.mutants.ever_killed j) && kill))

no_builds : (j : ℕ) (f : Found) → Outcome j false false f f
no_builds j f = record {
  infected = refl;
  ever_infected = refl;
  ever_killed = ground arith;
  killed = ground arith;
}

Outcome-trans :
    {j : ℕ} {x y k l : Bool} {f g h : Found}
    → Outcome j x k f g
    → Outcome j y l g h
    → Outcome j (x || y) (k || l) f h
Outcome-trans p r = record {
  infected = ground (arith, p.infected, r.infected);
  ever_infected = ground (arith, p.ever_infected, r.ever_infected);
  ever_killed = ground (arith, p.ever_killed, r.ever_killed);
  killed = ground (arith, p.killed, r.killed, p.ever_killed);
}

module _ (reference input : List ℕ) (size count : ℕ) where
  abbrev pub triggered_and_killed : ℕ → Build → Bool
  triggered_and_killed j b = triggers reference input size b j && kills reference input size b j

  run_build-Outcome :
      (b : Build) (j : ℕ) (f : Found)
      → IsQuiet reference input size b
      → j < count
      → Outcome j
          (triggers reference input size b j)
          (triggered_and_killed j b)
          f
          (run_build reference input size count b f)
  unfolding run_build run_schemata
  run_build-Outcome b j f q l =
      let start : Found = record f {
        mutants = record (f.mutants) { infected = λ k. (b.run detect input size).flags k || false };
      } in
      let e = mutants_loop-Effect reference input size b count 0 j start q in
      record {
        infected = ground (arith, e.infected);
        ever_infected = ground (arith, e.ever_infected);
        ever_killed = ground (arith, e.ever_killed);
        killed = ground (arith, e.killed);
      }

  builds_loop-Outcome :
      (builds : List Build) (j : ℕ) (f : Found)
      → All (IsQuiet reference input size) builds
      → All (λ b. check_build reference input size b ≡ none) builds
      → j < count
      → (g : Found) × (builds_loop reference input size count builds f ≡ (none, g))
        × Outcome j
            (any_build (λ b. triggers reference input size b j) builds)
            (any_build (triggered_and_killed j) builds)
            f
            g
  unfolding builds_loop
  builds_loop-Outcome [] j f q c l = (f, refl, no_builds j f)
  builds_loop-Outcome (b ∷ bs) j f (q, qs) (c, cs) l =
      let (g, e, o) = builds_loop-Outcome bs j (run_build reference input size count b f) qs cs l in
      (g, rw (c, e) refl, Outcome-trans (run_build-Outcome b j f q l) o)

  -- What an input does to the arrays of mutant `j`.
  pub record IsRound (builds : List Build) (j : ℕ) (m n : Mutants) : Type 0 where
    pub infected : n.infected j ≡ any_build (λ b. triggers reference input size b j) builds
    pub ever_infected :
        n.ever_infected j
        ≡ (any_build (λ b. triggers reference input size b j) builds || m.ever_infected j)
    pub ever_killed :
        n.ever_killed j ≡ (m.ever_killed j || any_build (triggered_and_killed j) builds)
    pub killed :
        n.killed j
        ≡ (m.killed j || (not (m.ever_killed j) && any_build (triggered_and_killed j) builds))

  -- If with no mutant on every schemata build agrees with the reference and calls the API legally,
  -- and with a mutant on no build flags one, `run_mutants` returns without aborting, and for each of
  -- the `count` mutants: the fuzzer observes it as infected exactly if the input triggers it in some
  -- build; `mutant_ever_infected` gains exactly the mutants that some build triggers;
  -- `mutant_ever_killed` gains exactly those that some build both triggers and exposes when it runs
  -- with that mutant; and `diffsecp_mutant_killed` gains exactly those of them that no earlier input
  -- killed.
  pub run_mutants-IsRound :
      (builds : List Build) (j : ℕ) (m : Mutants)
      → All (IsQuiet reference input size) builds
      → All (λ b. check_build reference input size b ≡ none) builds
      → j < count
      → (n : Mutants) × (run_mutants reference input size count builds m ≡ (none, n))
        × IsRound builds j m n
  unfolding run_mutants
  run_mutants-IsRound builds j m q c l =
      let (g, e, o) =
        builds_loop-Outcome builds j (record { mutants = m; infected = λ _. false }) q c l in
      (
        record (g.mutants) { infected = g.infected },
        ap (publish reference input size) e,
        record {
          infected = ground (arith, o.infected);
          ever_infected = o.ever_infected;
          ever_killed = o.ever_killed;
          killed = o.killed;
        },
      )
