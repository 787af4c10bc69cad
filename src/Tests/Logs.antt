-- ===== src/Tests/Logs.antt =====
-- The reader, the transcript and the digest at concrete inputs.
use diffsecp.Prelude.{
  ℕ, ◌+◌, ◌-◌, ◌*◌, ◌<◌, ◌≤◌, ◌^◌, List, [], ◌∷◌, ◌++◌, ◌≡◌, ◌≢◌, ◌⊎◌, refl, arith, some, none,
  negsuc, length, get_or, drop,
}
use diffsecp.Reader.{Reader, reader_take, reader_u16}
use diffsecp.Reader.Stream as Stream
use diffsecp.Transcript.{Transcript, transcript_put, transcript_int}
use diffsecp.Transcript.Log as Log
use diffsecp.Digest.{diffsecp_digest}
use diffsecp.Digest.Injective.{diffsecp_digest-byte}

-- Two bytes of which both are the input, before one that is not.
abbrev two_bytes : Reader
two_bytes = record { p = 7 ∷ 200 ∷ 9 ∷ []; left = 2 }

two_bytes-IsValid : Stream.IsValid two_bytes
two_bytes-IsValid = record { in_bounds = omega arith; bytes = omega arith }

reader_take-stream_example :
    (length (reader_take two_bytes 5).0 ≡ 5)
    × ((i : ℕ) → i < 5 → get_or (reader_take two_bytes 5).0 i 0 ≡ Stream.stream two_bytes i)
    × ((i : ℕ) → Stream.stream (reader_take two_bytes 5).1 i ≡ Stream.stream two_bytes (5 + i))
    × Stream.IsValid (reader_take two_bytes 5).1
reader_take-stream_example = Stream.reader_take-stream two_bytes 5 two_bytes-IsValid

reader_u16-stream_example :
    ((reader_u16 two_bytes).0 ≡ Stream.stream two_bytes 0 * 256 + Stream.stream two_bytes 1)
    × ((reader_u16 two_bytes).0 < 2 ^ 16)
    × ((i : ℕ) → Stream.stream (reader_u16 two_bytes).1 i ≡ Stream.stream two_bytes (2 + i))
    × Stream.IsValid (reader_u16 two_bytes).1
reader_u16-stream_example = Stream.reader_u16-stream two_bytes two_bytes-IsValid

-- One byte of six is written.
abbrev half_full : Transcript
half_full = record { buf = 5 ∷ 1 ∷ 2 ∷ 3 ∷ 4 ∷ 5 ∷ []; cap = 6; len = 1 }

half_full-IsValid : Log.IsValid half_full
half_full-IsValid = record { filled = omega arith; in_bounds = omega arith }

abbrev result : List ℕ
result = 8 ∷ 9 ∷ []

transcript_put-log_example :
    ((length result ≤ half_full.cap - half_full.len)
      × ((t' : Transcript) × (transcript_put half_full result ≡ some t')
          × (Log.log t' ≡ Log.log half_full ++ result)
          × Log.IsValid t'
          × (t'.cap ≡ half_full.cap)
          × (drop t'.len t'.buf ≡ drop t'.len half_full.buf)))
    ⊎ ((half_full.cap - half_full.len < length result) × (transcript_put half_full result ≡ none))
transcript_put-log_example = Log.transcript_put-log half_full result half_full-IsValid

transcript_int-int_of_example :
    (t' : Transcript) × (b : List ℕ) × (transcript_int half_full (negsuc 0) ≡ some t')
    × (Log.log t' ≡ Log.log half_full ++ b)
    × (length b ≡ 4)
    × (Log.int_of (Log.u32_of b) ≡ negsuc 0)
transcript_int-int_of_example =
    Log.transcript_int-int_of half_full (negsuc 0) half_full-IsValid (omega arith) (omega arith)

diffsecp_digest-byte_example :
    diffsecp_digest ((1 ∷ []) ++ 2 ∷ 3 ∷ []) 3 ≢ diffsecp_digest ((1 ∷ []) ++ 4 ∷ 3 ∷ []) 3
diffsecp_digest-byte_example =
    diffsecp_digest-byte (1 ∷ []) (3 ∷ []) 2 4 3 (omega arith) (omega arith) (omega arith) refl
      (omega arith)
