-- ===== src/Tests/Field.antt =====
-- The field target over two builds of a field module that meet the contract: a release build
-- without checks, and one that carries each magnitude and aborts where it is out of bounds.
pub mod Builds
use diffsecp.Prelude.{ℕ, List, [], ◌∷◌, ◌++◌, ◌≡◌, refl, replicate, arith, Option, some}
use diffsecp.Reader.{reader_take, reader_u8, reader_u16, reader_empty}
use diffsecp.Transcript.{
  transcript_put, transcript_u8, transcript_u32, transcript_int, memcpy_at, u32_bytes,
}
use diffsecp.Run.{
  World, run_target, while_input, take_bytes, u8, u16, is_empty, put, put_u8, put_int,
}
use diffsecp.Run.Whole.{IsCall, SameTranscript}
use diffsecp.Field.Target
use diffsecp.Field.Target.{target_field}
use diffsecp.Field.Agree.{target_field-SameTranscript}
use Builds.{release, verify, builds_agree}
use diffsecp.Tests.Calls.{filled-IsCall}

-- Set register 1 to 1, add it to register 0, double register 0 five times.
abbrev field_input : List ℕ
field_input = 0 ∷ 1 ∷ replicate 31 0 ++ 1 ∷ 2 ∷ 4 ∷ 2 ∷ 0 ∷ 2 ∷ 0 ∷ 2 ∷ 0 ∷ 2 ∷ 0 ∷ 2 ∷ 0 ∷ []

target_field-SameTranscript_example :
    SameTranscript 62464
      (target_field release field_input 46 (replicate 62464 0) 62464)
      (target_field verify field_input 46 (replicate 62464 1) 62464)
target_field-SameTranscript_example =
    target_field-SameTranscript release verify builds_agree field_input 46 (replicate 62464 0)
      (replicate 62464 1) 62464 (omega arith)
      (filled-IsCall field_input 46 62464 0 (omega arith) (omega arith))
      (filled-IsCall field_input 46 62464 1 (omega arith) (omega arith))
