-- ===== src/Tests/Schnorrsig.antt =====
-- The Schnorr target over two builds that meet its contract.
mod Builds
use diffsecp.Prelude.{ℕ, List, [], ◌∷◌, ◌++◌, replicate}

-- Sign, make R odd, cancel the tweak and sign again with the named nonce function, after a change
-- of the message.
abbrev schnorrsig_input : List ℕ
schnorrsig_input = 107 ∷ replicate 96 5 ++ 1 ∷ 1 ∷ 40 ∷ 255 ∷ replicate 45 3
