-- ===== src/Oracle.antt =====
-- The comparison with other architectures in src/oracle.h.
pub mod Pipes
pub mod Sampling
pub mod Verdict
pub mod Ended
pub mod Start
use diffsecp.Prelude.{
  ℕ, zero, suc, ◌+◌, ◌-◌, ◌*◌, ◌/◌, ◌%◌, ◌^◌, min, List, [], ◌∷◌, ◌++◌, Bool, true, false, not,
  ◌&&◌, ◌||◌, Option, none, some,
}
use diffsecp.Prelude.{
  ltb, leb, ◌==◌, if◌then◌else◌, length, get_or, take, drop, same_bytes, bit_xor,
}
use diffsecp.Hex.{hex}

abbrev pub uint64_max : ℕ
uint64_max = 2 ^ 64 - 1

-- `oracle_threshold` and `oracle_rng`.
pub record Sampler : Type 0 where
  pub oracle_threshold : ℕ
  pub oracle_rng : ℕ

-- The three assignments to `oracle_rng`, on `uint64_t`.
unfoldable pub shift_left_13 : ℕ → ℕ
shift_left_13 x = bit_xor x ((x * 2 ^ 13) % 2 ^ 64)

unfoldable pub shift_right_7 : ℕ → ℕ
shift_right_7 x = bit_xor x (x / 2 ^ 7)

unfoldable pub shift_left_17 : ℕ → ℕ
shift_left_17 x = bit_xor x ((x * 2 ^ 17) % 2 ^ 64)

unfoldable pub oracle_due : Sampler → Bool × Sampler
oracle_due s =
    let rng = shift_left_17 (shift_right_7 (shift_left_13 s.oracle_rng)) in
    (not (s.oracle_threshold == 0) && leb rng s.oracle_threshold, record s { oracle_rng = rng })

-- What one `write` of a buffer may do: take some of its bytes, be interrupted, or fail.
pub data Write : Type 0 where
  wrote : ℕ → Write
  write_eintr write_failed : Write

-- The bytes that went into the pipe, whether all of the buffer did, and the calls still to come.
pub record Written : Type 0 where
  pub sent : List ℕ
  pub success : Bool

abbrev pub send_more : List ℕ → Written → Written
send_more b w = record w { sent = b ++ w.sent }

-- `oracle_write`, over what the calls of `write` do. It ends with the calls that the list foresees.
unfoldable pub oracle_write : List Write → List ℕ → Written
oracle_write calls [] = record { sent = []; success = true }
oracle_write [] (b ∷ buf) = record { sent = []; success = false }
oracle_write (write_eintr ∷ calls) (b ∷ buf) = oracle_write calls (b ∷ buf)
oracle_write (write_failed ∷ calls) (b ∷ buf) = record { sent = []; success = false }
oracle_write (wrote zero ∷ calls) (b ∷ buf) = record { sent = []; success = false }
oracle_write (wrote (suc n) ∷ calls) (b ∷ buf) =
    send_more (take (suc n) (b ∷ buf)) (oracle_write calls (drop (suc n) (b ∷ buf)))

-- What one `read` of a byte may do.
pub data Read : Type 0 where
  byte : ℕ → Read
  read_eintr read_ended : Read

abbrev pub store_char : ℕ → Option (List ℕ) → Option (List ℕ)
store_char c none = none
store_char c (some l) = some (c ∷ l)

-- `oracle_read_line` with `len` bytes of `line` stored: the rest of the line, or `none` for -1,
-- and the reads that are left.
unfoldable pub read_line_from : ℕ → ℕ → List Read → Option (List ℕ) × List Read
read_line_from size len [] = (none, [])
read_line_from size len (read_eintr ∷ calls) = read_line_from size len calls
read_line_from size len (read_ended ∷ calls) = (none, calls)
read_line_from size len (byte c ∷ calls) =
    let keep = ltb (len + 1) size in
    let (line, rest) = read_line_from size (if keep then len + 1 else len) calls in
    if c == 10 then (some [], calls) else (if keep then store_char c line else line, rest)

unfoldable pub oracle_read_line : ℕ → List Read → Option (List ℕ) × List Read
oracle_read_line size calls = read_line_from size 0 calls

-- `strchr(line, ' ')`, from the space on; it stops at a NUL.
unfoldable pub strchr_space : List ℕ → Option (List ℕ)
strchr_space [] = none
strchr_space (c ∷ line) =
    let rest = strchr_space line in
    if c == 32 then some (c ∷ line) else if c == 0 then none else rest

-- `strncmp(digest + 1, expected, 16) == 0 && digest[17] == ' '`
abbrev pub digest_matches : List ℕ → Option (List ℕ) → Bool
digest_matches expected none = false
digest_matches expected (some digest) =
    same_bytes (take 16 (drop 1 digest)) expected && (get_or digest 17 0 == 32)

-- The bytes before the first NUL, which `%s` prints.
unfoldable pub c_string : List ℕ → List ℕ
c_string [] = []
c_string (c ∷ s) = if c == 0 then [] else c ∷ c_string s

-- Whether an oracle's line gives the reference digest.
unfoldable pub answer_agrees : ℕ → List ℕ → Bool
answer_agrees reference line = digest_matches (hex 16 reference) (strchr_space line)

-- One oracle in one `oracle_check`: whether the request went out, the line that was read, and what
-- `oracle_no_answer` says of its process otherwise.
pub record Turn : Type 0 where
  pub name : List ℕ
  pub sent : Bool
  pub read : Option (List ℕ)
  pub no_answer : List ℕ

abbrev pub line_or : Option (List ℕ) → List ℕ → List ℕ
line_or none text = text
line_or (some line) text = line

unfoldable pub turn_line : Turn → List ℕ
turn_line t = if t.sent then line_or t.read t.no_answer else t.no_answer

-- The name of the first oracle whose answer is not the reference, and that answer, cut to fit
-- `answer`.
pub record Diverged : Type 0 where
  pub name : List ℕ
  pub answer : List ℕ

unfoldable pub turn_result : ℕ → ℕ → Turn → Option Diverged
turn_result reference size t =
    if answer_agrees reference (turn_line t)
    then none
    else some (record { name = t.name; answer = take (size - 1) (c_string (turn_line t)) })

-- A divergence that was found stays; the answers after it are read all the same.
abbrev pub keep_first : Option Diverged → Option Diverged → Option Diverged
keep_first none next = next
keep_first (some d) next = some d

unfoldable pub check_loop : ℕ → ℕ → Option Diverged → List Turn → Option Diverged
check_loop reference size diverged [] = diverged
check_loop reference size diverged (t ∷ turns) =
    check_loop reference size (keep_first diverged (turn_result reference size t)) turns

unfoldable pub oracle_check : ℕ → ℕ → List Turn → Option Diverged
oracle_check reference size turns = check_loop reference size none turns
