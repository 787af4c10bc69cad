-- ===== src/Oracle/Start.antt =====
-- `oracle_start` of src/oracle.h. What the system does is a parameter: the process id, and whether
-- the pipes and the process of a command come to be.
pub mod Bounds
pub mod Spec
use diffsecp.Prelude.{
  ℕ, zero, suc, ◌+◌, ◌-◌, ◌*◌, ◌/◌, ◌%◌, ◌^◌, List, [], ◌∷◌, ◌++◌, Bool, true, false, not, ◌&&◌,
  ◌||◌, Option, none, some,
}
use diffsecp.Prelude.{ltb, leb, ◌==◌, if◌then◌else◌, length, take, bit_or}
use diffsecp.Oracle.{Sampler, uint64_max}
use diffsecp.Oracle.Ended.{decimal}

abbrev pub oracle_max : ℕ
oracle_max = 16

-- `strtok_r`: the pieces between the delimiters that are not empty. A piece, and those after it.
abbrev pub piece : List ℕ → List (List ℕ) → List (List ℕ)
piece [] rest = rest
piece (c ∷ token) rest = (c ∷ token) ∷ rest

unfoldable pub cut : ℕ → List ℕ → List ℕ × List (List ℕ)
cut delim [] = ([], [])
cut delim (c ∷ s) =
    let (token, rest) = cut delim s in
    if c == delim then ([], piece token rest) else (c ∷ token, rest)

unfoldable pub tokens : ℕ → List ℕ → List (List ℕ)
tokens delim s = let (token, rest) = cut delim s in piece token rest

-- `entry += strspn(entry, " ")`
unfoldable pub skip_spaces : List ℕ → List ℕ
skip_spaces [] = []
skip_spaces (c ∷ s) = if c == 32 then skip_spaces s else c ∷ s

-- `strchr(entry, '=')`: what stands before it, and behind it.
abbrev pub before_char : ℕ → Option (List ℕ × List ℕ) → Option (List ℕ × List ℕ)
before_char c none = none
before_char c (some (name, rest)) = some (c ∷ name, rest)

unfoldable pub split_at : ℕ → List ℕ → Option (List ℕ × List ℕ)
split_at delim [] = none
split_at delim (c ∷ s) =
    let rest = before_char c (split_at delim s) in if c == delim then some ([], s) else rest

-- `struct oracle` without what the system chose, and the words of its command.
pub record Oracle : Type 0 where
  pub name : List ℕ
  pub argv : List (List ℕ)

-- The fraction of the inputs: a `double` that is a number, with 0 for all below 0.
pub record Rate : Type 0 where
  pub num : ℕ
  pub den : ℕ

-- `(uint64_t)(rate * 18446744073709551616.0)`, where the product is exact.
unfoldable pub threshold : Rate → ℕ
threshold rate =
    if leb rate.den rate.num
    then uint64_max
    else if rate.num == 0
    then 0
    else rate.num * 2 ^ 64 / rate.den

-- `/input`
abbrev pub input_name : List ℕ
input_name = 47 ∷ 105 ∷ 110 ∷ 112 ∷ 117 ∷ 116 ∷ []

-- `oracle_input[512]`, of which `snprintf` and `strncat` leave out what does not fit.
unfoldable pub oracle_input : List ℕ → ℕ → List ℕ
oracle_input dir pid =
    let own = take 511 (dir ++ 47 ∷ decimal pid) in own ++ take (512 - length own - 1) input_name

-- The request of `oracle_check`: the path and a newline, in a buffer of one byte more than the path's.
unfoldable pub oracle_request : List ℕ → List ℕ
oracle_request path = take 512 (path ++ 10 ∷ [])

-- What `oracle_start` leaves behind when it returns 0.
pub record Started : Type 0 where
  pub sampler : Sampler
  pub input : List ℕ
  pub oracles : List Oracle

abbrev pub add_oracle : Oracle → Option (List Oracle) → Option (List Oracle)
add_oracle o none = none
add_oracle o (some rest) = some (o ∷ rest)

-- Whether the pipes and the process of a command come to be, as the oracle of that number.
module _ (spawns : ℕ → List (List ℕ) → Bool) where
  -- The words of a command, of which `argv[64]` holds 63; `none` where there is no word, or no process.
  unfoldable pub start_command : ℕ → List ℕ × List ℕ → Option Oracle
  start_command noracles (name, command) =
      let argv = take 63 (tokens 32 command) in
      if length argv == 0 || not (spawns noracles argv)
      then none
      else some (record { name = name; argv = argv })

  abbrev pub start_named : ℕ → Option (List ℕ × List ℕ) → Option Oracle
  start_named noracles none = none
  start_named noracles (some entry) =
      if noracles == oracle_max then none else start_command noracles entry

  abbrev pub start_next : Option Oracle → Option (List Oracle) → Option (List Oracle)
  start_next none rest = none
  start_next (some o) rest = add_oracle o rest

  -- The loop, with `noracles` started; `none` for -1.
  unfoldable pub start_entries : List (List ℕ) → ℕ → Option (List Oracle)
  start_entries [] noracles = some []
  start_entries (entry ∷ entries) noracles =
      let skipped = start_entries entries noracles in
      let rest = start_entries entries (noracles + 1) in
      let text = skip_spaces entry in
      if length text == 0
      then skipped
      else start_next (start_named noracles (split_at 61 text)) rest

  abbrev pub with_oracles : Sampler → List ℕ → Option (List Oracle) → Option Started
  with_oracles sampler input none = none
  with_oracles sampler input (some oracles) =
      some (record { sampler = sampler; input = input; oracles = oracles })

  unfoldable pub oracle_start : ℕ → List ℕ → List ℕ → Rate → Option Started
  oracle_start pid spec dir rate =
      with_oracles
        (record {
          oracle_threshold = threshold rate;
          oracle_rng = bit_or (pid * 2 ^ 32 % 2 ^ 64) 1;
        })
        (oracle_input dir pid) (start_entries (tokens 59 spec) 0)
