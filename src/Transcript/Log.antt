-- ===== src/Transcript/Log.antt =====
-- A transcript refines an append-only log of bounded length.
use diffsecp.Prelude.{
  ℕ, zero, suc, ◌+◌, ◌-◌, ◌*◌, ◌^◌, ◌≤◌, ◌<◌, List, [], ◌∷◌, ◌++◌, ◌≡◌, refl, ap,
}
use diffsecp.Prelude.{
  none, some, arith, length, take, drop, ltb, ltb→lt, ltb-false, if◌then◌else◌, ◌⊎◌, Bool-cases,
  inl, inr,
}
use diffsecp.Prelude.{ℤ, pos, negsuc, to_u32, get_or}
use diffsecp.Transcript.{
  Transcript, memcpy_at, transcript_put, u32_bytes, transcript_int, transcript_u32,
}

-- The buffer holds at least `cap` bytes, of which the first `len` are written.
pub record IsValid (t : Transcript) : Type 0 where
  pub filled : t.len ≤ t.cap
  pub in_bounds : t.cap ≤ length t.buf

-- What has been written.
unfoldable pub log : Transcript → List ℕ
log t = take t.len t.buf

pub length-memcpy_at : (buf : List ℕ) (i : ℕ) (p : List ℕ) → length (memcpy_at buf i p) ≡ length buf
unfolding memcpy_at
length-memcpy_at [] i p = refl
length-memcpy_at (b ∷ buf) (suc i) p = ap suc (length-memcpy_at buf i p)
length-memcpy_at (b ∷ buf) zero [] = refl
length-memcpy_at (b ∷ buf) zero (x ∷ p) = ap suc (length-memcpy_at buf zero p)

-- The bytes before the copy, then the copy.
take-memcpy_at :
    (buf : List ℕ) (i : ℕ) (p : List ℕ) (n : ℕ)
    → n ≡ i + length p
    → n ≤ length buf
    → take n (memcpy_at buf i p) ≡ take i buf ++ p
unfolding memcpy_at
take-memcpy_at [] zero [] zero e h = refl
take-memcpy_at [] zero [] (suc n) e h = elim h [ ]
take-memcpy_at [] zero (x ∷ p) n e h = absurd (omega arith)
take-memcpy_at [] (suc i) p n e h = absurd (omega arith)
take-memcpy_at (b ∷ buf) zero [] zero e h = refl
take-memcpy_at (b ∷ buf) zero (x ∷ p) zero e h = absurd (omega arith)
take-memcpy_at (b ∷ buf) (suc i) p zero e h = absurd (omega arith)
take-memcpy_at (b ∷ buf) (suc i) p (suc n) e h =
    ap (λ l. b ∷ l) (take-memcpy_at buf i p n (omega arith) (omega arith))
take-memcpy_at (b ∷ buf) zero [] (suc n) e h = absurd (omega arith)
take-memcpy_at (b ∷ buf) zero (x ∷ p) (suc n) e h =
    ap (λ l. x ∷ l) (take-memcpy_at buf zero p n (omega arith) (omega arith))

-- The bytes after the copy.
drop-memcpy_at :
    (buf : List ℕ) (i : ℕ) (p : List ℕ) (n : ℕ)
    → n ≡ i + length p
    → drop n (memcpy_at buf i p) ≡ drop n buf
unfolding memcpy_at
drop-memcpy_at [] i p n e = refl
drop-memcpy_at (b ∷ buf) zero [] zero e = refl
drop-memcpy_at (b ∷ buf) zero (x ∷ p) zero e = absurd (omega arith)
drop-memcpy_at (b ∷ buf) (suc i) p zero e = absurd (omega arith)
drop-memcpy_at (b ∷ buf) (suc i) p (suc n) e = drop-memcpy_at buf i p n (omega arith)
drop-memcpy_at (b ∷ buf) zero [] (suc n) e = absurd (omega arith)
drop-memcpy_at (b ∷ buf) zero (x ∷ p) (suc n) e = drop-memcpy_at buf zero p n (omega arith)

-- The transcript that a put of `p` leaves where it fits.
abbrev pub appended : Transcript → List ℕ → Transcript
appended t p = record t { buf = memcpy_at t.buf t.len p; len = t.len + length p }

pub transcript_put_fits :
    (t : Transcript) (p : List ℕ)
    → length p ≤ t.cap - t.len
    → transcript_put t p ≡ some (appended t p)
unfolding transcript_put
transcript_put_fits t p h = ground arith

pub appended-IsValid :
    (t : Transcript) (p : List ℕ) → IsValid t → length p ≤ t.cap - t.len → IsValid (appended t p)
appended-IsValid t p v h = omega (arith, v.filled, v.in_bounds, length-memcpy_at t.buf t.len p)

pub log-appended :
    (t : Transcript) (p : List ℕ)
    → IsValid t
    → length p ≤ t.cap - t.len
    → log (appended t p) ≡ log t ++ p
unfolding log
log-appended t p v h =
    take-memcpy_at t.buf t.len p (t.len + length p) refl (omega (arith, v.filled, v.in_bounds))

-- `transcript_put` appends `p` to the log where `p` fits in what is left of `cap`, and keeps the
-- transcript well-formed and the memory behind the log as it was; where `p` does not fit it
-- aborts.
pub transcript_put-log :
    (t : Transcript) (p : List ℕ)
    → IsValid t
    → ((length p ≤ t.cap - t.len)
        × ((t' : Transcript) × (transcript_put t p ≡ some t')
            × (log t' ≡ log t ++ p)
            × IsValid t'
            × (t'.cap ≡ t.cap)
            × (drop t'.len t'.buf ≡ drop t'.len t.buf)))
      ⊎ ((t.cap - t.len < length p) × (transcript_put t p ≡ none))
transcript_put-log t p v = elim (Bool-cases (ltb (t.cap - t.len) (length p))) [
  | inl over ↦ inr (ltb→lt _ _ over, unfold transcript_put in rw over)
  | inr fits ↦ inl (
    ltb-false _ _ fits,
    (
      appended t p,
      transcript_put_fits t p (ltb-false _ _ fits),
      log-appended t p v (ltb-false _ _ fits),
      appended-IsValid t p v (ltb-false _ _ fits),
      refl,
      drop-memcpy_at t.buf t.len p (t.len + length p) refl,
    ),
  )
]

-- The number that four bytes of a log stand for, the highest first.
pub u32_of : List ℕ → ℕ
u32_of b = get_or b 0 0 * 2 ^ 24 + get_or b 1 0 * 2 ^ 16 + get_or b 2 0 * 2 ^ 8 + get_or b 3 0

-- The `int` whose cast to `uint32_t` is `v`.
pub int_of : ℕ → ℤ
int_of v = if ltb v (2 ^ 31) then pos v else negsuc (2 ^ 32 - 1 - v)

abbrev pub IsInt : ℤ → Type 0
IsInt (pos n) = n < 2 ^ 31
IsInt (negsuc n) = n < 2 ^ 31

-- A recorded `uint32_t` can be read back from its bytes.
pub u32_of-u32_bytes : (v : ℕ) → v < 2 ^ 32 → u32_of (u32_bytes v) ≡ v
unfolding u32_of u32_bytes
u32_of-u32_bytes v h = omega arith

int_of-to_u32 : (v : ℤ) → IsInt v → int_of (u32_of (u32_bytes (to_u32 v))) ≡ v
unfolding int_of
int_of-to_u32 (pos n) h = rw (u32_of-u32_bytes (to_u32 (pos n)) (omega arith)) (ground arith)
int_of-to_u32 (negsuc n) h = rw (u32_of-u32_bytes (to_u32 (negsuc n)) (omega arith)) (ground arith)

-- Where four bytes are left, `transcript_int` appends four bytes, from which the `int`, a negative
-- one included, can be read back: two different results never leave the same bytes.
pub transcript_int-int_of :
    (t : Transcript) (v : ℤ)
    → IsValid t
    → IsInt v
    → 4 ≤ t.cap - t.len
    → (t' : Transcript) × (b : List ℕ) × (transcript_int t v ≡ some t')
      × (log t' ≡ log t ++ b)
      × (length b ≡ 4)
      × (int_of (u32_of b) ≡ v)
unfolding transcript_int transcript_u32
transcript_int-int_of t v h i room =
    let b = u32_bytes (to_u32 v) in
    let four : length b ≡ 4 = unfold u32_bytes in refl in
    (
      appended t b,
      b,
      transcript_put_fits t b (omega arith),
      log-appended t b h (omega arith),
      four,
      int_of-to_u32 v i,
    )
