-- ===== src/Oracle/Start/Bounds.antt =====
-- The arrays of `oracle_start` are large enough, and its sampler does not get stuck.
use diffsecp.Prelude.{
  ℕ, ◌+◌, ◌-◌, ◌*◌, ◌/◌, ◌%◌, ◌^◌, ◌≤◌, ◌<◌, List, [], ◌∷◌, ◌++◌, Bool, not, ◌||◌, Option, none,
  some,
}
use diffsecp.Prelude.{
  ◌≡◌, ◌≢◌, arith, leb, ◌==◌, length, take, length-take, length-append, take_within, All,
  Bool-cases, inl, inr, subst, bit_or, bit_or_fields,
}
use native.Mathlib.Nat.{div-lt_iff_lt-mul}
use diffsecp.Oracle.{Sampler, uint64_max}
use diffsecp.Oracle.Sampling.{IsSeeded}
use diffsecp.Oracle.Ended.{decimal}
use diffsecp.Oracle.Start.{
  Oracle, Rate, Started, tokens, skip_spaces, threshold, oracle_input, oracle_request, input_name,
  start_command, start_named, start_next, start_entries, with_oracles, oracle_start, oracle_max,
}

-- An oracle with a command, whose words fit `argv[64]` with the `NULL` behind them.
pub record IsCommand (o : Oracle) : Type 0 where
  pub some_words : 1 ≤ length o.argv
  pub few_words : length o.argv ≤ 63

pub record AreStarted (noracles : ℕ) (oracles : List Oracle) : Type 0 where
  pub fits : noracles + length oracles ≤ oracle_max
  pub commands : All IsCommand oracles

-- What holds of a result, if there is one.
abbrev IfSome : {A : Type 0} → (A → Type 0) → Option A → Type 0
IfSome P none = Unit
IfSome P (some a) = P a

of_some : {A : Type 0} (P : A → Type 0) (o : Option A) (a : A) → IfSome P o → o ≡ some a → P a
of_some P o a h e = subst (IfSome P) e h

IfSome-map :
    {A : Type 0} {P Q : A → Type 0} (o : Option A) → ((a : A) → P a → Q a) → IfSome P o → IfSome Q o
IfSome-map none f h = tt
IfSome-map (some a) f h = f a h

-- The rate of a fraction is below the threshold of all inputs.
threshold-le : (rate : Rate) → threshold rate ≤ uint64_max
unfolding threshold
threshold-le rate = elim (Bool-cases (leb rate.den rate.num)) [
  | inl all ↦ rw all (omega arith)
  | inr less ↦
      let below : rate.num < rate.den = ground arith in
      let fits : rate.num * 2 ^ 64 / rate.den < 2 ^ 64 =
        (div-lt_iff_lt-mul {k = rate.den} {x = rate.num * 2 ^ 64} {y = 2 ^ 64}
            (omega (arith, below))).1
          (omega (arith, below)) in
      rw less (ground (arith, fits))
]

-- The sampler is seeded, and its threshold a `uint64_t`; the path fits `oracle_input`, and the request
-- with it `request`, so that neither the newline nor the terminator is cut off.
pub record IsReady (st : Started) : Type 0 where
  pub seeded : IsSeeded st.sampler
  pub word : st.sampler.oracle_threshold ≤ uint64_max
  pub path : length st.input ≤ 511
  pub request : oracle_request st.input ≡ st.input ++ 10 ∷ []
  pub few : length st.oracles ≤ oracle_max
  pub commands : All IsCommand st.oracles

module _ (spawns : ℕ → List (List ℕ) → Bool) where
  start_command-IsCommand :
      (noracles : ℕ) (entry : List ℕ × List ℕ)
      → IfSome IsCommand (start_command spawns noracles entry)
  unfolding start_command
  start_command-IsCommand noracles (name, command) =
      let argv = take 63 (tokens 32 command) in
      elim (Bool-cases (length argv == 0 || not (spawns noracles argv))) [
        | inl fails ↦ rw fails tt
        | inr starts ↦ rw starts (record {
          some_words = ground arith;
          few_words = omega (arith, length-take {A = List ℕ} 63 (tokens 32 command));
        })
      ]

  abbrev IsNext : ℕ → Oracle → Type 0
  IsNext noracles o = IsCommand o × (noracles ≢ oracle_max)

  start_named-IsNext :
      (noracles : ℕ) (entry : Option (List ℕ × List ℕ))
      → IfSome (IsNext noracles) (start_named spawns noracles entry)
  start_named-IsNext noracles none = tt
  start_named-IsNext noracles (some entry) = elim (Bool-cases (noracles == oracle_max)) [
    | inl full ↦ rw full tt
    | inr room ↦ rw room (
        IfSome-map {Q = IsNext noracles} _ (λ o h. (h, λ e. ground (arith, e)))
          (start_command-IsCommand noracles entry))
  ]

  start_next-AreStarted :
      (noracles : ℕ) (o : Option Oracle) (rest : Option (List Oracle))
      → noracles ≤ oracle_max
      → IfSome (IsNext noracles) o
      → (noracles + 1 ≤ oracle_max → IfSome (AreStarted (noracles + 1)) rest)
      → IfSome (AreStarted noracles) (start_next spawns o rest)
  start_next-AreStarted noracles none rest l h k = tt
  start_next-AreStarted noracles (some o) none l h k = tt
  start_next-AreStarted noracles (some o) (some rest) l h k =
      let r = k (omega (arith, h.1)) in
      record { fits = omega (arith, r.fits); commands = (h.0, r.commands) }

  start_entries-AreStarted :
      (entries : List (List ℕ)) (noracles : ℕ)
      → noracles ≤ oracle_max
      → IfSome (AreStarted noracles) (start_entries spawns entries noracles)
  unfolding start_entries
  start_entries-AreStarted [] noracles l = record { fits = omega arith; commands = tt }
  start_entries-AreStarted (entry ∷ entries) noracles l =
      elim (Bool-cases (length (skip_spaces entry) == 0)) [
        | inl blank ↦ rw blank (start_entries-AreStarted entries noracles l)
        | inr text ↦ rw text (
            start_next-AreStarted noracles _ _ l (start_named-IsNext noracles _)
              (start_entries-AreStarted entries (noracles + 1)))
      ]

  input-fits : (dir : List ℕ) (pid : ℕ) → length (oracle_input dir pid) ≤ 511
  unfolding oracle_input
  input-fits dir pid =
      let own = take 511 (dir ++ 47 ∷ decimal pid) in
      omega (
        arith,
        length-append own (take (512 - length own - 1) input_name),
        length-take 511 (dir ++ 47 ∷ decimal pid),
        length-take (512 - length own - 1) input_name,
      )

  request-whole : (path : List ℕ) → length path ≤ 511 → oracle_request path ≡ path ++ 10 ∷ []
  unfolding oracle_request
  request-whole path l =
      take_within 512 (path ++ 10 ∷ []) (omega (arith, l, length-append path (10 ∷ [])))

  with_oracles-IsReady :
      (sampler : Sampler) (dir : List ℕ) (pid : ℕ) (oracles : Option (List Oracle))
      → IsSeeded sampler
      → sampler.oracle_threshold ≤ uint64_max
      → IfSome (AreStarted 0) oracles
      → IfSome IsReady (with_oracles spawns sampler (oracle_input dir pid) oracles)
  with_oracles-IsReady sampler dir pid none v l h = tt
  with_oracles-IsReady sampler dir pid (some oracles) v l h = record {
    seeded = v;
    word = l;
    path = input-fits dir pid;
    request = request-whole _ (input-fits dir pid);
    few = omega (arith, h.fits);
    commands = h.commands;
  }

  -- Whatever the text that names the oracles and the directory, for a rate that is a number (not NaN)
  -- and a process id below 2^31: if `oracle_start` returns 0, it started at most 16 oracles, each with
  -- at least one word and at most 63, so that neither `oracles` nor an `argv` with its `NULL` is
  -- overrun; the path of the input fits its buffer, so that each request is the whole path and its
  -- newline; and the sampler is seeded with a nonzero word, its threshold a `uint64_t`.
  pub oracle_start-IsReady :
      (pid : ℕ) (spec dir : List ℕ) (rate : Rate) (st : Started)
      → pid < 2 ^ 31
      → oracle_start spawns pid spec dir rate ≡ some st
      → IsReady st
  unfolding oracle_start
  oracle_start-IsReady pid spec dir rate st l e =
      let whole : pid * 2 ^ 32 % 2 ^ 64 ≡ pid * 2 ^ 32 = omega (arith, l) in
      let seed : bit_or (pid * 2 ^ 32 % 2 ^ 64) 1 ≡ pid * 2 ^ 32 + 1 =
        rw whole (bit_or_fields 32 pid 1 (omega arith)) in
      of_some IsReady _ st
        (with_oracles-IsReady _ dir pid _
          (record { nonzero = λ z. omega (arith, seed, z); word = omega (arith, seed, l) })
          (threshold-le rate) (start_entries-AreStarted (tokens 59 spec) 0 (omega arith)))
        e
