-- ===== src/Run.antt =====
-- The state that every target of src/targets threads through its calls, `struct reader r` and
-- `struct transcript t` of the `target_` functions, as a state monad. `none` is an abort: an
-- overflowing transcript, or a call that libsecp's own checks (VERIFY, the illegal callback) stop.
pub mod Agree
pub mod Steps
pub mod Loop
pub mod Whole
pub mod Array
pub mod Results
pub mod Mutate
pub mod Short
use diffsecp.Prelude.{ℕ, zero, suc, if◌then◌else◌, Bool, List, Option, none, some, ℤ}
use diffsecp.Reader.{Reader, reader_take, reader_u8, reader_u16, reader_empty}
use diffsecp.Transcript.{Transcript, transcript_put, transcript_u8, transcript_u32, transcript_int}

pub record World : Type 0 where
  pub r : Reader
  pub t : Transcript

abbrev pub M : Type 0 → Type 0
M A = World → Option (A × World)

abbrev pub pure : {A : Type 0} → A → M A
pure a w = some (a, w)

infixl 5 ◌>>=◌ ◌>>◌
abbrev pub ◌>>=◌ : {A B : Type 0} → M A → (A → M B) → M B
◌>>=◌ m f w = elim (m w) [ none ↦ none | some (a, w') ↦ f a w' ]

abbrev pub ◌>>◌ : {A B : Type 0} → M A → M B → M B
m >> k = m >>= λ _. k

-- A call of libsecp, which touches neither the reader nor the transcript.
abbrev pub continue_with : {A : Type 0} → World → Option A → Option (A × World)
continue_with w none = none
continue_with w (some a) = some (a, w)

abbrev pub lift : {A : Type 0} → Option A → M A
lift o w = continue_with w o

abbrev reading : {A : Type 0} → World → A × Reader → Option (A × World)
reading w (a, r') = some (a, record w { r = r' })

abbrev writing : World → Option Transcript → Option (Unit {0} × World)
writing w none = none
writing w (some t') = some (tt, record w { t = t' })

unfoldable pub take_bytes : ℕ → M (List ℕ)
take_bytes n w = reading w (reader_take w.r n)

unfoldable pub u8 : M ℕ
u8 w = reading w (reader_u8 w.r)

unfoldable pub u16 : M ℕ
u16 w = reading w (reader_u16 w.r)

unfoldable pub is_empty : M Bool
is_empty w = some (reader_empty w.r, w)

-- `r.left`
unfoldable pub input_left : M ℕ
input_left w = some (w.r.left, w)

unfoldable pub put : List ℕ → M (Unit {0})
put p w = writing w (transcript_put w.t p)

unfoldable pub put_u8 : ℕ → M (Unit {0})
put_u8 v w = writing w (transcript_u8 w.t v)

unfoldable pub put_u32 : ℕ → M (Unit {0})
put_u32 v w = writing w (transcript_u32 w.t v)

unfoldable pub put_int : ℤ → M (Unit {0})
put_int v w = writing w (transcript_int w.t v)

-- `for (i = 0; i < max && !reader_empty(&r); i++)`, with the rounds left and the registers that a
-- round passes to the next.
unfoldable pub while_input : {S : Type 0} → ℕ → (S → M S) → S → M (Unit {0})
while_input zero step s = pure tt
while_input (suc left) step s = do
  done ← is_empty
  if done then pure tt else (do s1 ← step s; while_input left step s1)

abbrev pub finish : Option (Unit {0} × World) → Option (ℕ × List ℕ)
finish none = none
finish (some (_, w)) = some (w.t.len, w.t.buf)

-- `struct reader r = {in, len}; struct transcript t = {out, cap, 0}; ... return t.len;`, with what
-- the target leaves in `out` beside the length.
unfoldable pub run_target : M (Unit {0}) → List ℕ → ℕ → List ℕ → ℕ → Option (ℕ × List ℕ)
run_target m input len out size = finish (
    m (record {
      r = record { p = input; left = len };
      t = record { buf = out; cap = size; len = 0 };
    }))
