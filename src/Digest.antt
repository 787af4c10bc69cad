-- ===== src/Digest.antt =====
-- The transcript digest of src/digest.h.
pub mod Fnv
pub mod Injective
use diffsecp.Prelude.{ℕ, ◌*◌, ◌%◌, ◌^◌, List, [], ◌∷◌, bit_xor, take}

-- One round of the loop: `h = (h ^ p[i]) * 0x100000001b3u` on `uint64_t`.
unfoldable pub digest_step : ℕ → ℕ → ℕ
digest_step h b = (bit_xor h b * 0x100000001b3) % 2 ^ 64

unfoldable pub digest_loop : ℕ → List ℕ → ℕ
digest_loop h [] = h
digest_loop h (b ∷ p) = digest_loop (digest_step h b) p

-- FNV-1a of the first `n` bytes at `p`.
unfoldable pub diffsecp_digest : List ℕ → ℕ → ℕ
diffsecp_digest p n = digest_loop 0xcbf29ce484222325 (take n p)
