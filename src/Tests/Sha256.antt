-- ===== src/Tests/Sha256.antt =====
-- SHA256 at a known value, and the theorem on it.
use diffsecp.Sha256.Standard.{Vars, words, IsHash}
use diffsecp.Sha256.Fips.{sha256_compress-IsHash}
use diffsecp.Prelude.{ℕ, List, [], ◌∷◌, ◌++◌, ◌≡◌, refl, arith, replicate}
use diffsecp.Sha256.{
  sha256_rotr, load_word, load_words, schedule_word, schedule, sha256_round, sha256_rounds,
  add_state, sha256_block, sha256_compress,
}

abbrev initial : List ℕ
initial =
    0x6a09e667 ∷ 0xbb67ae85 ∷ 0x3c6ef372 ∷ 0xa54ff53a ∷ 0x510e527f ∷ 0x9b05688c ∷ 0x1f83d9ab
    ∷ 0x5be0cd19 ∷ []

-- "abc", padded.
abbrev padded : List ℕ
padded = 0x61 ∷ 0x62 ∷ 0x63 ∷ 0x80 ∷ replicate 59 0 ++ 24 ∷ []

abc_digest :
    sha256_compress initial padded 1
    ≡ 0xba7816bf ∷ 0x8f01cfea ∷ 0x414140de ∷ 0x5dae2223 ∷ 0xb00361a3 ∷ 0x96177a9c ∷ 0xb410ff61
      ∷ 0xf20015ad ∷ []
unfolding sha256_rotr load_word load_words schedule_word schedule sha256_round sha256_rounds
    add_state sha256_block sha256_compress
abc_digest = refl

-- The initial hash value in its variables.
abbrev initial_vars : Vars
initial_vars = record {
  a = 0x6a09e667;
  b = 0xbb67ae85;
  c = 0x3c6ef372;
  d = 0xa54ff53a;
  e = 0x510e527f;
  f = 0x9b05688c;
  g = 0x1f83d9ab;
  h = 0x5be0cd19;
}

sha256_compress-IsHash_example :
    (s' : Vars) × IsHash 2 (padded ++ padded) initial_vars s'
    × (sha256_compress (words initial_vars) (padded ++ padded) 2 ≡ words s')
unfolding words
sha256_compress-IsHash_example =
    sha256_compress-IsHash 2 initial_vars (padded ++ padded) (omega arith) (omega arith)
