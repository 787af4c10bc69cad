-- ===== src/Run/Steps.antt =====
-- Each read of the input and each write to the transcript, in the logic of `Run/Agree`.
use diffsecp.Prelude.{ℕ, ◌-◌, ◌≤◌, ◌<◌, ◌^◌, List, ℤ, ◌≡◌, refl, some, ap, ◌+◌, ◌++◌, ◌∙◌}
use diffsecp.Prelude.{arith, length, [], ◌∷◌, to_u32, ◌%◌, sym, IsByte}
use diffsecp.Transcript.{transcript_u8, transcript_u32, transcript_int}
use diffsecp.Transcript.{u32_bytes}
use mathlib.Core.List.{append-nil}
use diffsecp.Transcript.Log as Log
use diffsecp.Transcript.Log.{log}
use diffsecp.Reader.{Reader, reader_take, reader_u8, reader_u16, reader_empty}
use diffsecp.Reader.Stream as Stream
use diffsecp.Run.{take_bytes, u8, u16, is_empty, put, put_u8, put_u32, put_int}
use diffsecp.Run.Agree.{Does, Any}

-- A step that only reads.
Does-reading :
    {A : Type 0} (P : A → Type 0) (read : Reader → A × Reader)
    → ((r : Reader)
        → Stream.IsValid r
        → P (read r).0 × Stream.IsValid (read r).1 × ((read r).1.left ≤ r.left))
    → Does 0 P (λ w. some ((read w.r).0, record w { r = (read w.r).1 }))
Does-reading P read keeps = record {
  at = λ w w' v room. record {
    a = (read w.r).0;
    b = (read w'.r).0;
    after = record w { r = (read w.r).1 };
    after' = record w' { r = (read w'.r).1 };
    runs_left = refl;
    runs_right = refl;
    related = (ap (λ r. (read r).0) (sym v.same_reader), (keeps w.r v.valid.reader).0);
    twins = record {
      same_reader = ap (λ r. (read r).1) v.same_reader;
      same_log = v.same_log;
      same_len = v.same_len;
      same_cap = v.same_cap;
      valid = record { reader = (keeps w.r v.valid.reader).1; transcript = v.valid.transcript };
      valid' = v.valid';
    };
    written = omega arith;
    ext = [];
    appends = sym (append-nil (log w.t));
    kept_cap = refl;
    shrinks = (keeps w.r v.valid.reader).2;
  };
}

pub Does-take : (n : ℕ) → Does 0 (λ b. length b ≡ n) (take_bytes n)
unfolding take_bytes
Does-take n =
    Does-reading (λ b. length b ≡ n) (λ r. reader_take r n)
      λ r v. let s = Stream.reader_take-stream r n v in (s.0, s.3, Stream.left-reader_take r n)

pub Does-u8 : Does 0 IsByte u8
unfolding u8
Does-u8 = Does-reading IsByte reader_u8 λ r v.
    let s = Stream.reader_u8-stream r v in
    (s.1, s.3, (unfold reader_u8 in Stream.left-reader_take r 1))

pub Does-u16 : Does 0 (λ v. v < 2 ^ 16) u16
unfolding u16
Does-u16 =
    Does-reading (λ v. v < 2 ^ 16) reader_u16
      λ r v.
        let s = Stream.reader_u16-stream r v in
        (s.1, s.3, (unfold reader_u16 in Stream.left-reader_take r 2))

pub Does-is_empty : Does 0 Any is_empty
unfolding is_empty
Does-is_empty = Does-reading Any (λ r. (reader_empty r, r)) (λ r v. (tt, v, omega arith))

pub Does-put : (p : List ℕ) (n : ℕ) → length p ≤ n → Does n Any (put p)
unfolding put
Does-put p n h = record {
  at = λ w w' v room.
      let fits : length p ≤ w.t.cap - w.t.len = omega (arith, h, room) in
      let fits' : length p ≤ w'.t.cap - w'.t.len = omega (arith, fits, v.same_cap, v.same_len) in
      let logged = Log.log-appended w.t p v.valid.transcript fits in
      record {
        a = tt;
        b = tt;
        after = record w { t = Log.appended w.t p };
        after' = record w' { t = Log.appended w'.t p };
        runs_left = rw (Log.transcript_put_fits w.t p fits);
        runs_right = rw (Log.transcript_put_fits w'.t p fits');
        related = (refl, tt);
        twins = record {
          same_reader = v.same_reader;
          same_log =
              Log.log-appended w'.t p v.valid' fits' ∙ ap (λ l. l ++ p) v.same_log ∙ sym logged;
          same_len = ap (λ k. k + length p) v.same_len;
          same_cap = v.same_cap;
          valid = record {
            reader = v.valid.reader;
            transcript = Log.appended-IsValid w.t p v.valid.transcript fits;
          };
          valid' = Log.appended-IsValid w'.t p v.valid' fits';
        };
        written = omega (arith, h);
        ext = p;
        appends = logged;
        kept_cap = refl;
        shrinks = omega arith;
      };
}

pub Does-put_u8 : (v : ℕ) → Does 1 Any (put_u8 v)
unfolding put_u8 transcript_u8
Does-put_u8 v = unfold put in Does-put (v % 2 ^ 8 ∷ []) 1 (omega arith)

pub Does-put_u32 : (v : ℕ) → Does 4 Any (put_u32 v)
unfolding put_u32 transcript_u32 put
Does-put_u32 v = Does-put (u32_bytes v) 4 (unfold u32_bytes in omega arith)

pub Does-put_int : (v : ℤ) → Does 4 Any (put_int v)
unfolding put_int transcript_int transcript_u32 put
Does-put_int v = Does-put (u32_bytes (to_u32 v)) 4 (unfold u32_bytes in omega arith)
