-- ===== src/Digest/Injective.antt =====
-- What the digest tells apart.
use diffsecp.Prelude.{
  ℕ, ◌*◌, ◌%◌, ◌^◌, ◌<◌, List, [], ◌∷◌, ◌++◌, ◌≡◌, ◌≢◌, refl, sym, ◌∙◌, arith, IsByte, All, take,
  length, take_all, bit_xor-lt, length-append,
}
use diffsecp.Digest.{digest_step, digest_loop, diffsecp_digest}
use diffsecp.Digest.Fnv.{fnv_step, fnv_loop, IsHash, loop_byte, loop-lt}

-- The multiplier is odd, so the product modulo 2 ^ 64 determines the factor.
mul_injective :
    (x y : ℕ)
    → x < 2 ^ 64
    → y < 2 ^ 64
    → (x * 0x100000001b3) % 2 ^ 64 ≡ (y * 0x100000001b3) % 2 ^ 64
    → x ≡ y
mul_injective x y p q h = omega arith

digest-IsHash : IsHash (2 ^ 64) 0x100000001b3
digest-IsHash = record {
  positive = omega arith;
  xor-lt = λ h b p q. bit_xor-lt 64 h b p (omega arith);
  injective = mul_injective;
}

digest_loop-fnv_loop : (p : List ℕ) (h : ℕ) → digest_loop h p ≡ fnv_loop (2 ^ 64) 0x100000001b3 h p
unfolding digest_loop digest_step fnv_loop fnv_step
digest_loop-fnv_loop [] h = refl
digest_loop-fnv_loop (b ∷ p) h = digest_loop-fnv_loop p (digest_step h b)

-- A digest is a `uint64_t`.
pub diffsecp_digest-lt : (p : List ℕ) (n : ℕ) → diffsecp_digest p n < 2 ^ 64
unfolding diffsecp_digest
diffsecp_digest-lt p n =
    rw (digest_loop-fnv_loop (take n p) 0xcbf29ce484222325)
      (loop-lt (2 ^ 64) 0x100000001b3 digest-IsHash (take n p) 0xcbf29ce484222325 (omega arith))

-- Two transcripts of bytes that differ in exactly one byte, wherever it stands, have different
-- digests.
pub diffsecp_digest-byte :
    (pre post : List ℕ) (a b n : ℕ)
    → IsByte a
    → IsByte b
    → All IsByte post
    → n ≡ length (pre ++ a ∷ post)
    → a ≢ b
    → diffsecp_digest (pre ++ a ∷ post) n ≢ diffsecp_digest (pre ++ b ∷ post) n
unfolding diffsecp_digest
diffsecp_digest-byte pre post a b n ha hb bs e ne same = ne (
    loop_byte (2 ^ 64) 0x100000001b3 digest-IsHash pre post 0xcbf29ce484222325 a b (omega arith) ha
      hb bs
      (sym (digest_loop-fnv_loop (pre ++ a ∷ post) 0xcbf29ce484222325)
        ∙ whole
        ∙ digest_loop-fnv_loop (pre ++ b ∷ post) 0xcbf29ce484222325))
  where
    whole :
        digest_loop 0xcbf29ce484222325 (pre ++ a ∷ post)
        ≡ digest_loop 0xcbf29ce484222325 (pre ++ b ∷ post)
    whole =
        rw
          (
            ← take_all n (pre ++ a ∷ post) e,
            ← take_all n (pre ++ b ∷ post)
                (omega (arith, length-append {0} pre (a ∷ post), length-append {0} pre (b ∷ post))),
          )
          same
