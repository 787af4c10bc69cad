-- ===== src/Group/Due.antt =====
-- The hash in src/targets/group.c that decides when a large multiplication is due.
use diffsecp.Prelude.{
  ℕ, ◌*◌, ◌^◌, ◌<◌, List, [], ◌∷◌, ◌++◌, true, ◌≡◌, ◌≢◌, ◌↔◌, refl, sym, ◌∙◌, arith, IsByte, All,
  bit_xor-lt,
}
use diffsecp.Digest.Fnv.{fnv_step, fnv_loop, IsHash, loop_byte}
use diffsecp.Group.Target.{large_hash, group_large_due, group_large_odds}

large-IsHash : IsHash (2 ^ 32) 16777619
large-IsHash = record {
  positive = omega arith;
  xor-lt = λ h b p q. bit_xor-lt 32 h b p (omega arith);
  injective = λ x y p q e. omega arith;
}

large_hash-fnv_loop :
    (input : List ℕ) (h : ℕ) → large_hash h input ≡ fnv_loop (2 ^ 32) 16777619 h input
unfolding large_hash fnv_loop fnv_step
large_hash-fnv_loop [] h = refl
large_hash-fnv_loop (b ∷ input) h = large_hash-fnv_loop input _

-- `group_large_due` holds exactly for the inputs whose hash is in the lowest 1/GROUP_LARGE_ODDS of
-- the words of 32 bits, and an input of bytes of which exactly one is changed, wherever it stands,
-- has another hash.
pub group_large_due-large_hash :
    (pre post : List ℕ) (a b : ℕ)
    → IsByte a
    → IsByte b
    → All IsByte post
    → a ≢ b
    → ((group_large_due (pre ++ a ∷ post) ≡ true)
        ↔ (large_hash 2166136261 (pre ++ a ∷ post) * group_large_odds < 2 ^ 32))
      × (large_hash 2166136261 (pre ++ a ∷ post) ≢ large_hash 2166136261 (pre ++ b ∷ post))
unfolding group_large_due
group_large_due-large_hash pre post a b ha hb bs ne = (
  ((λ h. ground arith), (λ h. ground arith)),
  λ same. ne (
      loop_byte (2 ^ 32) 16777619 large-IsHash pre post 2166136261 a b (omega arith) ha hb bs (
        sym (large_hash-fnv_loop (pre ++ a ∷ post) 2166136261)
        ∙ same
        ∙ large_hash-fnv_loop (pre ++ b ∷ post) 2166136261)),
)
