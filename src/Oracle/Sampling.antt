-- ===== src/Oracle/Sampling.antt =====
-- The sampler that picks inputs for the oracles.
use diffsecp.Prelude.{
  ℕ, ◌*◌, ◌/◌, ◌%◌, ◌^◌, ◌<◌, ◌≡◌, ◌≢◌, refl, arith, true, false, bit_xor-eq_zero, bit_xor-lt,
}
use diffsecp.Oracle.{Sampler, shift_left_13, shift_right_7, shift_left_17, oracle_due, uint64_max}

-- A state of xorshift64 that does not get stuck.
pub record IsSeeded (s : Sampler) : Type 0 where
  pub nonzero : s.oracle_rng ≢ 0
  pub word : s.oracle_rng < 2 ^ 64

left_13 : (x : ℕ) → x < 2 ^ 64 → x ≢ 0 → (shift_left_13 x ≢ 0) × (shift_left_13 x < 2 ^ 64)
unfolding shift_left_13
left_13 x h ne = (
  (λ e. let same : x ≡ (x * 2 ^ 13) % 2 ^ 64 = bit_xor-eq_zero x _ e in ne (omega arith)),
  bit_xor-lt 64 x ((x * 2 ^ 13) % 2 ^ 64) h (omega arith),
)

right_7 : (x : ℕ) → x < 2 ^ 64 → x ≢ 0 → (shift_right_7 x ≢ 0) × (shift_right_7 x < 2 ^ 64)
unfolding shift_right_7
right_7 x h ne = (
  (λ e. let same : x ≡ x / 2 ^ 7 = bit_xor-eq_zero x _ e in ne (omega arith)),
  bit_xor-lt 64 x (x / 2 ^ 7) h (omega arith),
)

left_17 : (x : ℕ) → x < 2 ^ 64 → x ≢ 0 → (shift_left_17 x ≢ 0) × (shift_left_17 x < 2 ^ 64)
unfolding shift_left_17
left_17 x h ne = (
  (λ e. let same : x ≡ (x * 2 ^ 17) % 2 ^ 64 = bit_xor-eq_zero x _ e in ne (omega arith)),
  bit_xor-lt 64 x ((x * 2 ^ 17) % 2 ^ 64) h (omega arith),
)

-- `oracle_due` keeps `oracle_rng` a nonzero `uint64_t`, the only values from which xorshift64 goes
-- on, and leaves the threshold; with the threshold `UINT64_MAX` every input goes to the oracles, and
-- with the threshold 0 none does.
pub oracle_due-IsSeeded :
    (s : Sampler)
    → IsSeeded s
    → IsSeeded (oracle_due s).1
      × ((oracle_due s).1.oracle_threshold ≡ s.oracle_threshold)
      × (s.oracle_threshold ≡ uint64_max → (oracle_due s).0 ≡ true)
      × (s.oracle_threshold ≡ 0 → (oracle_due s).0 ≡ false)
unfolding oracle_due
oracle_due-IsSeeded s v =
    let a = left_13 s.oracle_rng v.word v.nonzero in
    let b = right_7 (shift_left_13 s.oracle_rng) a.1 a.0 in
    let c = left_17 (shift_right_7 (shift_left_13 s.oracle_rng)) b.1 b.0 in
    (record { nonzero = c.0; word = c.1 }, refl, (λ e. ground (arith, c.1)), (λ e. ground arith))
