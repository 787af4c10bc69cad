-- ===== src/Reader/Stream.antt =====
-- What the reader promises: the input followed by zeros for ever, read in order.
use diffsecp.Prelude.{ℕ, zero, suc, ◌+◌, ◌-◌, ◌*◌, ◌^◌, ◌≤◌, ◌<◌, ◌++◌, ◌≡◌, ◌∙◌, arith}
use diffsecp.Prelude.{
  ltb, ltb→lt, ltb-false, if◌then◌else◌, length, get_or, take, drop, replicate, All, IsByte, min,
}
use diffsecp.Prelude.{
  length-append, length-take, length-drop, length-replicate, All-append, All-take,
}
use diffsecp.Prelude.{
  All-drop, All-replicate, All-get_or, get_or-take, get_or-drop, get_or-replicate,
}
use diffsecp.Prelude.{get_or-append_left, get_or-append_right, bit_or_fields, Bool-cases, inl, inr}
use diffsecp.Reader.{Reader, reader_take, reader_u8, reader_u16}

-- `left` bytes may be read at `p`, and they are bytes.
pub record IsValid (r : Reader) : Type 0 where
  pub in_bounds : r.left ≤ length r.p
  pub bytes : All IsByte r.p

-- Byte `i` of what is still to be read.
unfoldable pub stream : Reader → ℕ → ℕ
stream r i = if ltb i r.left then get_or r.p i 0 else 0

-- How many bytes a read of `n` finds.
abbrev found : Reader → ℕ → ℕ
found r n = min n r.left

-- The guard against an empty copy changes nothing.
reader_take_eq :
    (r : Reader) (n : ℕ)
    → reader_take r n ≡ (
      take (found r n) r.p ++ replicate (n - found r n) 0,
      record { p = drop (found r n) r.p; left = r.left - found r n },
    )
unfolding reader_take
reader_take_eq r zero = let e : found r 0 ≡ 0 = omega arith in rw e (ground arith)
reader_take_eq r (suc n) = ground arith

pub length-reader_take : (r : Reader) (n : ℕ) → IsValid r → length (reader_take r n).0 ≡ n
length-reader_take r n v = rw (reader_take_eq r n) (
    omega (
      arith,
      length-append {0} (take (found r n) r.p) (replicate (n - found r n) 0),
      length-take {0} (found r n) r.p,
      length-replicate {0} {A = ℕ} (n - found r n) 0,
    ))

-- A read leaves no more than there was.
pub left-reader_take : (r : Reader) (n : ℕ) → (reader_take r n).1.left ≤ r.left
left-reader_take r n = rw (reader_take_eq r n) (omega arith)

pub reader_take-IsValid :
    (r : Reader) (n : ℕ) → IsValid r → IsValid (reader_take r n).1 × All IsByte (reader_take r n).0
reader_take-IsValid r n v = rw (reader_take_eq r n) (
  record {
    in_bounds = omega (arith, length-drop {0} (found r n) r.p);
    bytes = All-drop IsByte (found r n) r.p v.bytes;
  },
  All-append IsByte (take (found r n) r.p) (replicate (n - found r n) 0)
      (All-take IsByte (found r n) r.p v.bytes)
      (All-replicate IsByte (n - found r n) 0 (omega arith)),
)

stream_front :
    (r : Reader) (n i : ℕ)
    → IsValid r
    → i < n
    → get_or (take (found r n) r.p ++ replicate (n - found r n) 0) i 0 ≡ stream r i
unfolding stream
stream_front r n i v h = elim (Bool-cases (ltb i r.left)) [
  | inl within ↦ rw within (
      get_or-append_left (take (found r n) r.p) _ i 0
        (omega (arith, ltb→lt i r.left within, length-take {0} (found r n) r.p))
      ∙ get_or-take (found r n) r.p i 0 (omega (arith, ltb→lt i r.left within)))
  | inr past ↦ rw past (
      get_or-append_right (take (found r n) r.p) _ i 0
        (omega (arith, ltb-false i r.left past, length-take {0} (found r n) r.p))
      ∙ get_or-replicate (n - found r n) _ 0)
]

stream_rest :
    (r : Reader) (n i : ℕ)
    → stream (record { p = drop (found r n) r.p; left = r.left - found r n }) i ≡ stream r (n + i)
unfolding stream
stream_rest r n i = ground (arith, get_or-drop (found r n) r.p i 0)

-- A read of `n` bytes returns the next `n` bytes of the stream, zeros past the end of the input,
-- and leaves the stream that follows them.
pub reader_take-stream :
    (r : Reader) (n : ℕ)
    → IsValid r
    → (length (reader_take r n).0 ≡ n)
      × ((i : ℕ) → i < n → get_or (reader_take r n).0 i 0 ≡ stream r i)
      × ((i : ℕ) → stream (reader_take r n).1 i ≡ stream r (n + i))
      × IsValid (reader_take r n).1
reader_take-stream r n v = (
  length-reader_take r n v,
  (λ i h. rw (reader_take_eq r n) (stream_front r n i v h)),
  (λ i. rw (reader_take_eq r n) (stream_rest r n i)),
  (reader_take-IsValid r n v).0,
)

-- `reader_u8` returns the next byte of the stream and leaves the rest.
pub reader_u8-stream :
    (r : Reader)
    → IsValid r
    → ((reader_u8 r).0 ≡ stream r 0)
      × IsByte (reader_u8 r).0
      × ((i : ℕ) → stream (reader_u8 r).1 i ≡ stream r (1 + i))
      × IsValid (reader_u8 r).1
unfolding reader_u8
reader_u8-stream r v =
    let s = reader_take-stream r 1 v in
    (
      s.1 0 (omega arith),
      All-get_or IsByte (reader_take r 1).0 0 0 (omega (arith, s.0)) (reader_take-IsValid r 1 v).1,
      s.2,
      s.3,
    )

-- `reader_u16` reads two bytes, the high one first.
pub reader_u16-stream :
    (r : Reader)
    → IsValid r
    → ((reader_u16 r).0 ≡ stream r 0 * 256 + stream r 1)
      × ((reader_u16 r).0 < 2 ^ 16)
      × ((i : ℕ) → stream (reader_u16 r).1 i ≡ stream r (2 + i))
      × IsValid (reader_u16 r).1
unfolding reader_u16
reader_u16-stream r v =
    let s = reader_take-stream r 2 v in
    let b = (reader_take r 2).0 in
    let low : get_or b 1 0 < 256 =
      All-get_or IsByte b 1 0 (omega (arith, s.0)) (reader_take-IsValid r 2 v).1 in
    let high : get_or b 0 0 < 256 =
      All-get_or IsByte b 0 0 (omega (arith, s.0)) (reader_take-IsValid r 2 v).1 in
    (
      omega (
        arith,
        bit_or_fields 8 (get_or b 0 0) (get_or b 1 0) low,
        s.1 0 (omega arith),
        s.1 1 (omega arith),
      ),
      omega (arith, bit_or_fields 8 (get_or b 0 0) (get_or b 1 0) low),
      s.2,
      s.3,
    )
