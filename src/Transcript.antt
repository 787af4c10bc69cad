-- ===== src/Transcript.antt =====
-- The result log of src/transcript.h.
pub mod Log
use diffsecp.Prelude.{
  ℕ, zero, suc, ◌+◌, ◌-◌, ◌/◌, ◌%◌, ◌^◌, List, [], ◌∷◌, Option, none, some, ℤ, to_u32,
}
use diffsecp.Prelude.{length, ltb, if◌then◌else◌}

-- `buf` is the memory that the pointer names, of which `cap` bytes are the transcript's.
pub record Transcript : Type 0 where
  pub buf : List ℕ
  pub cap : ℕ
  pub len : ℕ

-- `memcpy(buf + at, p, n)`. A write past the buffer changes nothing there; `IsValid` rules it out.
unfoldable pub memcpy_at : List ℕ → ℕ → List ℕ → List ℕ
memcpy_at [] i p = []
memcpy_at (b ∷ buf) (suc i) p = b ∷ memcpy_at buf i p
memcpy_at (b ∷ buf) zero [] = b ∷ buf
memcpy_at (b ∷ buf) zero (x ∷ p) = x ∷ memcpy_at buf zero p

-- `none` is the `abort()` of an overflow.
unfoldable pub transcript_put : Transcript → List ℕ → Option Transcript
transcript_put t p =
    if ltb (t.cap - t.len) (length p)
    then none
    else some (record t { buf = memcpy_at t.buf t.len p; len = t.len + length p })

unfoldable pub transcript_u8 : Transcript → ℕ → Option Transcript
transcript_u8 t v = transcript_put t (v % 2 ^ 8 ∷ [])

-- The four bytes of a `uint32_t`, the highest first.
unfoldable pub u32_bytes : ℕ → List ℕ
u32_bytes v = (v / 2 ^ 24) % 2 ^ 8 ∷ (v / 2 ^ 16) % 2 ^ 8 ∷ (v / 2 ^ 8) % 2 ^ 8 ∷ v % 2 ^ 8 ∷ []

unfoldable pub transcript_u32 : Transcript → ℕ → Option Transcript
transcript_u32 t v = transcript_put t (u32_bytes v)

unfoldable pub transcript_int : Transcript → ℤ → Option Transcript
transcript_int t v = transcript_u32 t (to_u32 v)
