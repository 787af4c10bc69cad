-- ===== src/Sha256.antt =====
-- The compression function of SHA256 in src/sha256.h.
pub mod Standard
pub mod Words
pub mod Steps
pub mod Fips
use diffsecp.Prelude.{
  ℕ, zero, suc, ◌+◌, ◌-◌, ◌*◌, ◌/◌, ◌%◌, ◌^◌, List, [], ◌∷◌, ◌++◌, bit_and, bit_or, bit_xor, get_or,
  take, drop, length,
}

abbrev pub sha256_k : List ℕ
sha256_k =
    0x428a2f98 ∷ 0x71374491 ∷ 0xb5c0fbcf ∷ 0xe9b5dba5 ∷ 0x3956c25b ∷ 0x59f111f1 ∷ 0x923f82a4
    ∷ 0xab1c5ed5 ∷ 0xd807aa98 ∷ 0x12835b01 ∷ 0x243185be ∷ 0x550c7dc3 ∷ 0x72be5d74 ∷ 0x80deb1fe
    ∷ 0x9bdc06a7 ∷ 0xc19bf174 ∷ 0xe49b69c1 ∷ 0xefbe4786 ∷ 0x0fc19dc6 ∷ 0x240ca1cc ∷ 0x2de92c6f
    ∷ 0x4a7484aa ∷ 0x5cb0a9dc ∷ 0x76f988da ∷ 0x983e5152 ∷ 0xa831c66d ∷ 0xb00327c8 ∷ 0xbf597fc7
    ∷ 0xc6e00bf3 ∷ 0xd5a79147 ∷ 0x06ca6351 ∷ 0x14292967 ∷ 0x27b70a85 ∷ 0x2e1b2138 ∷ 0x4d2c6dfc
    ∷ 0x53380d13 ∷ 0x650a7354 ∷ 0x766a0abb ∷ 0x81c2c92e ∷ 0x92722c85 ∷ 0xa2bfe8a1 ∷ 0xa81a664b
    ∷ 0xc24b8b70 ∷ 0xc76c51a3 ∷ 0xd192e819 ∷ 0xd6990624 ∷ 0xf40e3585 ∷ 0x106aa070 ∷ 0x19a4c116
    ∷ 0x1e376c08 ∷ 0x2748774c ∷ 0x34b0bcb5 ∷ 0x391c0cb3 ∷ 0x4ed8aa4a ∷ 0x5b9cca4f ∷ 0x682e6ff3
    ∷ 0x748f82ee ∷ 0x78a5636f ∷ 0x84c87814 ∷ 0x8cc70208 ∷ 0x90befffa ∷ 0xa4506ceb ∷ 0xbef9a3f7
    ∷ 0xc67178f2 ∷ []

-- `uint32_t`
abbrev pub u32 : ℕ → ℕ
u32 x = x % 2 ^ 32

unfoldable pub sha256_rotr : ℕ → ℕ → ℕ
sha256_rotr x n = bit_or (x / 2 ^ n) (u32 (x * 2 ^ (32 - n)))

-- `w[i]` for `i < 16`, of the four bytes at its place.
unfoldable pub load_word : List ℕ → ℕ
load_word b =
    bit_or
      (bit_or (bit_or (u32 (get_or b 0 0 * 2 ^ 24)) (get_or b 1 0 * 2 ^ 16)) (get_or b 2 0 * 2 ^ 8))
      (get_or b 3 0)

unfoldable pub load_words : ℕ → List ℕ → List ℕ
load_words zero b = []
load_words (suc n) b = load_word (take 4 b) ∷ load_words n (drop 4 b)

-- `w[i]` for `i >= 16`, of the words before it.
unfoldable pub schedule_word : List ℕ → ℕ → ℕ
schedule_word w i =
    let x = get_or w (i - 15) 0 in
    let y = get_or w (i - 2) 0 in
    u32 (
      get_or w (i - 16) 0
      + get_or w (i - 7) 0
      + bit_xor (bit_xor (sha256_rotr x 7) (sha256_rotr x 18)) (x / 2 ^ 3)
      + bit_xor (bit_xor (sha256_rotr y 17) (sha256_rotr y 19)) (y / 2 ^ 10))

-- The loop from 16 on, with the words left to make.
unfoldable pub schedule : ℕ → ℕ → List ℕ → List ℕ
schedule zero i w = w
schedule (suc left) i w = schedule left (i + 1) (w ++ schedule_word w i ∷ [])

-- One round; the `memmove` and the two assignments after it are the list at the end.
unfoldable pub sha256_round : List ℕ → ℕ → ℕ → List ℕ
sha256_round v k w =
    let v0 = get_or v 0 0 in
    let v1 = get_or v 1 0 in
    let v2 = get_or v 2 0 in
    let v4 = get_or v 4 0 in
    let v5 = get_or v 5 0 in
    let v6 = get_or v 6 0 in
    let t1 = u32 (
      get_or v 7 0
      + bit_xor (bit_xor (sha256_rotr v4 6) (sha256_rotr v4 11)) (sha256_rotr v4 25)
      + bit_xor (bit_and v4 v5) (bit_and (bit_xor v4 (2 ^ 32 - 1)) v6)
      + k
      + w) in
    let t2 = u32 (
      bit_xor (bit_xor (sha256_rotr v0 2) (sha256_rotr v0 13)) (sha256_rotr v0 22)
      + bit_xor (bit_xor (bit_and v0 v1) (bit_and v0 v2)) (bit_and v1 v2)) in
    u32 (t1 + t2) ∷ v0 ∷ v1 ∷ v2 ∷ u32 (get_or v 3 0 + t1) ∷ v4 ∷ v5 ∷ v6 ∷ []

-- The loop over the rounds, `i` counting up with `left` to go.
unfoldable pub sha256_rounds : ℕ → ℕ → List ℕ → List ℕ → List ℕ
sha256_rounds zero i w v = v
sha256_rounds (suc left) i w v =
    sha256_rounds left (i + 1) w (sha256_round v (get_or sha256_k i 0) (get_or w i 0))

-- `state[i] += v[i]`, from `i` on with `left` to go.
unfoldable pub add_state : ℕ → ℕ → List ℕ → List ℕ → List ℕ
add_state zero i state v = []
add_state (suc left) i state v =
    u32 (get_or state i 0 + get_or v i 0) ∷ add_state left (i + 1) state v

-- One round of the loop over the blocks.
unfoldable pub sha256_block : List ℕ → List ℕ → List ℕ
sha256_block state block =
    add_state 8 0 state (sha256_rounds 64 0 (schedule 48 16 (load_words 16 block)) state)

-- What `state` becomes.
unfoldable pub sha256_compress : List ℕ → List ℕ → ℕ → List ℕ
sha256_compress state blocks64 zero = state
sha256_compress state blocks64 (suc n) =
    sha256_compress (sha256_block state (take 64 blocks64)) (drop 64 blocks64) n
