-- ===== src/Limits.antt =====
-- The limits of src/diffsecp.h.
use diffsecp.Prelude.{ℕ, ◌^◌}

-- `DIFFSECP_INPUT_MAX`
abbrev pub diffsecp_input_max : ℕ
diffsecp_input_max = 4096

-- `DIFFSECP_TRANSCRIPT_MAX`
abbrev pub diffsecp_transcript_max : ℕ
diffsecp_transcript_max = 2 ^ 18
