-- ===== src/Run/Whole.antt =====
-- A whole target, from its arguments to its result.
use diffsecp.Prelude.{
  ℕ, ◌≤◌, List, Option, some, ◌≡◌, refl, ◌∙◌, sym, ap, arith, length, take, All, IsByte,
}
use diffsecp.Run.{M, World, run_target, finish}
use diffsecp.Run.Agree.{Agree, Twins, Ends}
use diffsecp.Transcript.Log.{log}

-- What a caller of a target promises: `len` bytes of input at `in`, and `size` bytes at `out`.
pub record IsCall (input : List ℕ) (len : ℕ) (out : List ℕ) (size : ℕ) : Type 0 where
  pub bytes : All IsByte input
  pub readable : len ≤ length input
  pub writable : size ≤ length out

-- Two results with the same transcript: the same length, at most `n`, and the same bytes up to it,
-- whatever the rest of the buffers holds.
pub record SameTranscript (n : ℕ) (left right : Option (ℕ × List ℕ)) : Type 0 where
  pub len : ℕ
  pub buf : List ℕ
  pub buf' : List ℕ
  pub returns_left : left ≡ some (len, buf)
  pub returns_right : right ≡ some (len, buf')
  pub bounded : len ≤ n
  pub same_bytes : take len buf' ≡ take len buf

-- The reader and the transcript that a target sets up.
unfoldable pub start : List ℕ → ℕ → List ℕ → ℕ → World
start input len out size = record {
  r = record { p = input; left = len };
  t = record { buf = out; cap = size; len = 0 };
}

pub start-Twins :
    (input : List ℕ) (len : ℕ) (out out' : List ℕ) (size : ℕ)
    → IsCall input len out size
    → IsCall input len out' size
    → Twins (start input len out size) (start input len out' size)
unfolding start
start-Twins input len out out' size call call' = record {
  same_reader = refl;
  same_log = unfold log in refl;
  same_len = refl;
  same_cap = refl;
  valid = record {
    reader = record { in_bounds = call.readable; bytes = call.bytes };
    transcript = record { filled = omega arith; in_bounds = call.writable };
  };
  valid' = record { filled = omega arith; in_bounds = call'.writable };
}

pub Ends-SameTranscript :
    (n : ℕ) (m m' : M (Unit {0})) (input : List ℕ) (len : ℕ) (out out' : List ℕ) (size : ℕ)
    → Ends n
        (λ _ _. Unit {0})
        (start input len out size)
        (m (start input len out size))
        (m' (start input len out' size))
    → SameTranscript n (run_target m input len out size) (run_target m' input len out' size)
unfolding start run_target
Ends-SameTranscript n m m' input len out out' size e = record {
  len = e.after.t.len;
  buf = e.after.t.buf;
  buf' = e.after'.t.buf;
  returns_left = rw (e.runs_left, finish);
  returns_right = rw (e.runs_right, finish) (ap (λ k. some (k, e.after'.t.buf)) e.twins.same_len);
  bounded = omega (arith, e.written);
  same_bytes =
      ap (λ k. take k e.after'.t.buf) (sym e.twins.same_len) ∙ (unfold log in e.twins.same_log);
}

pub run_target-Agree :
    (n : ℕ) (m m' : M (Unit {0})) (input : List ℕ) (len : ℕ) (out out' : List ℕ) (size : ℕ)
    → Agree n (λ _ _. Unit {0}) m m'
    → n ≤ size
    → IsCall input len out size
    → IsCall input len out' size
    → SameTranscript n (run_target m input len out size) (run_target m' input len out' size)
run_target-Agree n m m' input len out out' size h fits call call' =
    Ends-SameTranscript n m m' input len out out' size (
      h.at (start input len out size) (start input len out' size)
        (start-Twins input len out out' size call call') (unfold start in omega arith))
