-- ===== src/Reader.antt =====
-- The fuzz input reader of src/reader.h.
pub mod Stream
use diffsecp.Prelude.{ℕ, ◌+◌, ◌-◌, ◌*◌, ◌^◌, Bool, List, ◌++◌, ltb, ◌==◌, if◌then◌else◌, bit_or}
use diffsecp.Prelude.{take, drop, replicate, get_or}

-- `p` is the memory that the pointer reads, from where it stands.
pub record Reader : Type 0 where
  pub p : List ℕ
  pub left : ℕ

-- `out` comes back beside the reader that `*r` becomes.
unfoldable pub reader_take : Reader → ℕ → List ℕ × Reader
reader_take r n =
    let k = if ltb n r.left then n else r.left in
    if ltb 0 k
    then (take k r.p ++ replicate (n - k) 0, record { p = drop k r.p; left = r.left - k })
    else (replicate (n - k) 0, r)

unfoldable pub reader_u8 : Reader → ℕ × Reader
reader_u8 r = let (b, r') = reader_take r 1 in (get_or b 0 0, r')

-- `(unsigned int)b[0] << 8 | b[1]`
unfoldable pub reader_u16 : Reader → ℕ × Reader
reader_u16 r = let (b, r') = reader_take r 2 in (bit_or (get_or b 0 0 * 2 ^ 8) (get_or b 1 0), r')

unfoldable pub reader_empty : Reader → Bool
reader_empty r = r.left == 0
