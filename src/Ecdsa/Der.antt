-- ===== src/Ecdsa/Der.antt =====
-- The DER encodings that src/targets/ecdsa.c builds.
use diffsecp.Prelude.{ℕ, ◌+◌, ◌-◌, ◌*◌, ◌/◌, ◌%◌, ◌^◌, List, [], ◌∷◌, ◌++◌, none, Bool, not, ◌&&◌}
use diffsecp.Prelude.{length, ltb, leb, if◌then◌else◌, has_flag, bit_and}
use diffsecp.Limits.{diffsecp_input_max}
use diffsecp.Run.{M, pure, ◌>>=◌, lift, take_bytes, u8}

-- `ECDSA_DER_MAX`
abbrev pub ecdsa_der_max : ℕ
ecdsa_der_max = 4 + 2 * (3 + 255) + 3 + 8 + diffsecp_input_max

-- The size of `body` in `ecdsa_der_build`.
abbrev pub der_body_max : ℕ
der_body_max = 2 * (3 + 255) + 3

-- `out` behind the bytes that an array of `size` bytes holds so far; a write past its end, which C
-- leaves undefined, stops the run.
unfoldable pub append_within : ℕ → List ℕ → List ℕ → M (List ℕ)
append_within size b out = if leb (length b + length out) size then pure (b ++ out) else lift none

-- The bytes that are written; their count is what the function returns.
unfoldable pub ecdsa_der_len : ℕ → Bool → List ℕ
ecdsa_der_len len long_form =
    if ltb len 128 && not long_form
    then len % 2 ^ 8 ∷ []
    else if ltb len 256
    then 0x81 ∷ len % 2 ^ 8 ∷ []
    else 0x82 ∷ len / 2 ^ 8 % 2 ^ 8 ∷ len % 2 ^ 8 ∷ []

-- One round of the loop over the integers, with its bit among the flags.
unfoldable pub der_integer : ℕ → ℕ → List ℕ → M (List ℕ)
der_integer flags flag body = do
  len ← u8
  tagged ← append_within der_body_max body (0x02 ∷ [])
  sized ← append_within der_body_max tagged (ecdsa_der_len len (has_flag flags flag))
  value ← take_bytes len
  append_within der_body_max sized value

-- `n - short_by`, which are `size_t`.
abbrev pub short_length : ℕ → ℕ → ℕ
short_length n short_by = (n + 2 ^ 64 - short_by) % 2 ^ 64

-- The sequence of the integers.
unfoldable pub der_sequence : ℕ → ℕ → List ℕ → M (List ℕ)
der_sequence flags short_by body = do
  tagged ← append_within ecdsa_der_max [] (0x30 ∷ [])
  sized ←
      append_within ecdsa_der_max tagged
        (ecdsa_der_len (short_length (length body) short_by) (has_flag flags 1))
  append_within ecdsa_der_max sized body

unfoldable pub ecdsa_der_build : M (List ℕ)
ecdsa_der_build = do
  flags ← u8
  first ← der_integer flags 2 []
  body ← der_integer flags 4 first
  if has_flag flags 32
      then (do
        extra ← take_bytes (bit_and (flags / 8) 3)
        longer ← append_within der_body_max body extra
        der_sequence flags 0 longer)
      else der_sequence flags (bit_and (flags / 8) 3) body
