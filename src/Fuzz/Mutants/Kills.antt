-- ===== src/Fuzz/Mutants/Kills.antt =====
-- What the nested loops of `run_mutants`, with their skips, amount to for each mutant.
use diffsecp.Prelude.{ℕ, zero, suc, ◌+◌, pos, List, Bool, false, not, ◌&&◌, ◌||◌}
use diffsecp.Prelude.{
  ◌≡◌, refl, subst, ◌∙◌, arith, leb, ltb, ◌==◌, if◌then◌else◌, Bool-cases, inl, inr,
}
use diffsecp.Fuzz.Mutants.{Build, Found, detect, run_schemata, exposes, try_mutant, mutants_loop}

module _ (reference input : List ℕ) (size : ℕ) where
  -- With a mutant on, a build flags nothing (mutants/gen.py guards the flags by `diffsecp_mutant < 0`).
  abbrev pub IsQuiet : Build → Type 0
  IsQuiet b = (k j : ℕ) → (b.run (pos k) input size).flags j ≡ false

  abbrev pub triggers : Build → ℕ → Bool
  triggers b k = (b.run detect input size).flags k

  abbrev pub kills : Build → ℕ → Bool
  kills b k = exposes reference input size (b.run (pos k) input size)

  -- From `f` to `g`, mutant `j` was tried on the build `b` if `hit`, and untouched if not.
  pub record Effect (b : Build) (j : ℕ) (hit : Bool) (f g : Found) : Type 0 where
    pub keeps_flags : g.mutants.infected j ≡ f.mutants.infected j
    pub infected : g.infected j ≡ (hit || f.infected j)
    pub ever_infected : g.mutants.ever_infected j ≡ (hit || f.mutants.ever_infected j)
    pub ever_killed : g.mutants.ever_killed j ≡ (f.mutants.ever_killed j || (hit && kills b j))
    pub killed :
        g.mutants.killed j
        ≡ (f.mutants.killed j || (hit && (not (f.mutants.ever_killed j) && kills b j)))

  try_mutant-Effect :
      (b : Build) (k j : ℕ) (f : Found)
      → IsQuiet b
      → Effect b j (k == j) f (try_mutant reference input size b k f)
  unfolding try_mutant run_schemata
  try_mutant-Effect b k j f q = record {
    keeps_flags = ground (arith, q k j);
    infected = ground (arith, q k j);
    ever_infected = ground (arith, q k j);
    ever_killed = ground (arith, q k j);
    killed = ground (arith, q k j);
  }

  untouched : (b : Build) (j : ℕ) (f : Found) → Effect b j false f f
  untouched b j f = record {
    keeps_flags = refl;
    infected = refl;
    ever_infected = refl;
    ever_killed = ground arith;
    killed = ground arith;
  }

  -- Of two stages, at most one tries the mutant.
  in_turn :
      (b : Build) (j : ℕ) (x y : Bool) {f g h : Found}
      → (x && y) ≡ false
      → Effect b j x f g
      → Effect b j y g h
      → Effect b j (x || y) f h
  in_turn b j x y once p r = record {
    keeps_flags = r.keeps_flags ∙ p.keeps_flags;
    infected = ground (arith, p.infected, r.infected);
    ever_infected = ground (arith, p.ever_infected, r.ever_infected);
    ever_killed = ground (arith, p.ever_killed, r.ever_killed);
    killed = ground (arith, p.killed, r.killed, p.ever_killed);
  }

  -- Whether the rounds from `k` on, `left` of them, come to `j` with its flag set.
  abbrev reaches : ℕ → ℕ → ℕ → Found → Bool
  reaches left k j f = (leb k j && ltb j (k + left)) && f.mutants.infected j

  round-Effect :
      (b : Build) (k j : ℕ) (f : Found)
      → IsQuiet b
      → Effect b j
          ((k == j) && f.mutants.infected j)
          f
          (if f.mutants.infected k then try_mutant reference input size b k f else f)
  round-Effect b k j f q = elim (Bool-cases (f.mutants.infected k)) [
    | inl on ↦
        let hit : (k == j) ≡ ((k == j) && f.mutants.infected j) = ground arith in
        rw on (
          subst (λ h. Effect b j h f (try_mutant reference input size b k f)) hit
            (try_mutant-Effect b k j f q))
    | inr off ↦
        let miss : false ≡ ((k == j) && f.mutants.infected j) = ground arith in
        rw off (subst (λ h. Effect b j h f f) miss (untouched b j f))
  ]

  pub mutants_loop-Effect :
      (b : Build) (left k j : ℕ) (f : Found)
      → IsQuiet b
      → Effect b j (reaches left k j f) f (mutants_loop reference input size b left k f)
  unfolding mutants_loop
  mutants_loop-Effect b zero k j f q =
      let none_left : false ≡ reaches 0 k j f = ground arith in
      subst (λ h. Effect b j h f f) none_left (untouched b j f)
  mutants_loop-Effect b (suc left) k j f q =
      subst (λ h. Effect b j h f (mutants_loop reference input size b left (k + 1) (round k))) whole
        (in_turn b j ((k == j) && f.mutants.infected j) (reaches left (k + 1) j (round k)) once
          (round-Effect b k j f q) (mutants_loop-Effect b left (k + 1) j (round k) q))
    where
      round : ℕ → Found
      round i = if f.mutants.infected i then try_mutant reference input size b i f else f

      same_flag : (round k).mutants.infected j ≡ f.mutants.infected j
      same_flag = (round-Effect b k j f q).keeps_flags

      once : (((k == j) && f.mutants.infected j) && reaches left (k + 1) j (round k)) ≡ false
      once = ground arith

      whole :
          (((k == j) && f.mutants.infected j) || reaches left (k + 1) j (round k))
          ≡ reaches (suc left) k j f
      whole = rw same_flag (ground arith)
