-- ===== src/Fuzz/Family.antt =====
-- What the fuzzer and replay run: one target of src/targets, over builds of libsecp.
pub mod Targets
pub mod Passes
use diffsecp.Limits.{diffsecp_input_max, diffsecp_transcript_max}
use diffsecp.Prelude.{ℕ, ◌≤◌, List, [], Option, none, some, String, take, length}
use diffsecp.Run.Whole.{IsCall, SameTranscript}
use diffsecp.Fuzz.Compare.{Variant}

-- A target as a function of the build, and the promise that its own module proves: builds that keep
-- its contract leave the same transcript, which fits the fuzzer's buffers.
pub record Family : Type 2 where
  pub Api : Type 1
  pub Contract : Api → Api → Type 1
  pub run : Api → List ℕ → ℕ → List ℕ → ℕ → Option (ℕ × List ℕ)
  pub bound : ℕ
  pub fits : bound ≤ diffsecp_transcript_max
  pub same :
      (f g : Api)
      → Contract f g
      → (input : List ℕ) (len : ℕ) (out out' : List ℕ) (size : ℕ) → len ≤ diffsecp_input_max
      → bound ≤ size
      → IsCall input len out size
      → IsCall input len out' size
      → SameTranscript bound (run f input len out size) (run g input len out' size)

-- The first `lengths[i]` bytes of `transcripts[i]`; a target that aborts leaves none.
abbrev pub transcript_of : Option (ℕ × List ℕ) → List ℕ
transcript_of none = []
transcript_of (some (len, buf)) = take len buf

module _ (t : Family) where
  -- A build with its name, and the buffer that it is given, which holds what ran before.
  pub record Installed : Type 1 where
    pub name : String
    pub api : t.Api
    pub out : List ℕ

  -- The call `variants[i]->DIFFSECP_TARGET(data, size, transcripts[i], DIFFSECP_TRANSCRIPT_MAX)`.
  unfoldable pub variant : Installed → Variant
  variant b = record {
    name = b.name;
    target = λ input size. transcript_of (t.run b.api input size b.out diffsecp_transcript_max);
  }

  -- A build whose calls of libsecp do what the reference's do, with room for a transcript.
  pub record IsPeer (r b : Installed) : Type 1 where
    pub contract : t.Contract r.api b.api
    pub room : diffsecp_transcript_max ≤ length b.out
