-- ===== src/Fuzz/Family/Passes.antt =====
-- No false alarm: builds of libsecp that keep a target's contract pass the fuzzer, whatever the input.
use diffsecp.Limits.{diffsecp_input_max, diffsecp_transcript_max}
use diffsecp.Prelude.{ℕ, ◌≤◌, List, [], ◌∷◌, ◌++◌, false, Option, none, some, map}
use diffsecp.Prelude.{◌≡◌, refl, sym, ◌∙◌, ap, arith, length, All, IsByte}
use mathlib.Core.Option.{some-injective}
use diffsecp.Run.Whole.{SameTranscript}
use diffsecp.Digest.{diffsecp_digest}
use diffsecp.Digest.Injective.{diffsecp_digest-lt}
use diffsecp.Replay.{Files, answer_line, replay_path}
use diffsecp.Replay.Lines.{replay_path-answer_line}
use diffsecp.Oracle.{Turn, turn_line}
use diffsecp.Oracle.Verdict.{IsNameByte, Agrees, answer_agrees-answer_line, oracle_check-none}
use diffsecp.Fuzz.Compare.First.{matches_reference_iff}
use diffsecp.Fuzz.Compare.First as First
use diffsecp.Fuzz.Mutants.{Build, detect, check_build}
use diffsecp.Fuzz.Entry.{Fuzzer, State, Verdict, transcripts, test_one_input}
use diffsecp.Fuzz.Entry.Passed.{test_one_input-IsClean}
use diffsecp.Fuzz.Family.{Family, transcript_of, Installed, variant, IsPeer}

same_transcript :
    (n : ℕ) (left right : Option (ℕ × List ℕ))
    → SameTranscript n left right
    → transcript_of right ≡ transcript_of left
same_transcript n left right s = rw (s.returns_left, s.returns_right) s.same_bytes

module _ (t : Family) (r : Installed t) (input : List ℕ) where
  -- The transcript that the fuzzer compares with.
  abbrev pub reference : List ℕ
  reference = (variant t r).target input (length input)

  -- What libFuzzer promises, and that the reference has its buffer.
  pub record IsRun : Type 0 where
    pub bytes : All IsByte input
    pub short : length input ≤ diffsecp_input_max
    pub room : diffsecp_transcript_max ≤ length r.out

  -- A schemata build with no mutant on is one more peer, which makes no illegal call.
  pub record IsUnmutated (build : Build) : Type 1 where
    pub peer : Installed t
    pub is_peer : IsPeer t r peer
    pub legal : (build.run detect input (length input)).illegal ≡ false
    pub runs :
        (build.run detect input (length input)).transcript
        ≡ (variant t peer).target input (length input)

  -- An oracle that answers what replay prints with a peer for a path at which the input stands. No
  -- target's name has a space or a NUL.
  pub record IsAnswer (turn : Turn) : Type 1 where
    pub peer : Installed t
    pub is_peer : IsPeer t r peer
    pub files : Files
    pub name : List ℕ
    pub path : List ℕ
    pub named : All IsNameByte name
    pub stands : files path ≡ some input
    pub prints :
        replay_path files name (λ bytes. (variant t peer).target bytes (length bytes)) path
        ≡ some (turn_line turn ++ 10 ∷ [])

  peer-SameTranscript :
      (b : Installed t)
      → IsRun
      → IsPeer t r b
      → SameTranscript t.bound
          (t.run r.api input (length input) r.out diffsecp_transcript_max)
          (t.run b.api input (length input) b.out diffsecp_transcript_max)
  peer-SameTranscript b v p =
      t.same r.api b.api p.contract input (length input) r.out b.out diffsecp_transcript_max v.short
        t.fits (record { bytes = v.bytes; readable = omega arith; writable = v.room })
        (record { bytes = v.bytes; readable = omega arith; writable = p.room })

  peer-transcript :
      (b : Installed t)
      → IsRun
      → IsPeer t r b
      → (variant t b).target input (length input) ≡ reference
  unfolding variant
  peer-transcript b v p = same_transcript t.bound _ _ (peer-SameTranscript b v p)

  -- The target returns over the reference and over the build.
  pub record Return (b : Installed t) : Type 0 where
    pub reference_result : ℕ × List ℕ
    pub result : ℕ × List ℕ
    pub reference_returns :
        t.run r.api input (length input) r.out diffsecp_transcript_max ≡ some reference_result
    pub returns : t.run b.api input (length input) b.out diffsecp_transcript_max ≡ some result

  peer-Return : (b : Installed t) → IsRun → IsPeer t r b → Return b
  peer-Return b v p =
      let s = peer-SameTranscript b v p in
      record {
        reference_result = (s.len, s.buf);
        result = (s.len, s.buf');
        reference_returns = s.returns_left;
        returns = s.returns_right;
      }

  peers-Return : (bs : List (Installed t)) → IsRun → All (IsPeer t r) bs → All Return bs
  peers-Return [] v h = tt
  peers-Return (b ∷ bs) v h = (peer-Return b v h.0, peers-Return bs v h.1)

  transcripts_agree :
      (bs : List (Installed t))
      → IsRun
      → All (IsPeer t r) bs
      → All (First.Agrees reference) (transcripts (map (variant t) bs) input (length input))
  transcripts_agree [] v h = tt
  transcripts_agree (b ∷ bs) v h = (peer-transcript b v h.0, transcripts_agree bs v h.1)

  schemata_agree :
      (builds : List Build)
      → IsRun
      → All IsUnmutated builds
      → All (λ b. check_build reference input (length input) b ≡ none) builds
  unfolding check_build
  schemata_agree [] v h = tt
  schemata_agree (b ∷ builds) v h = (
    rw
        (
          h.0.legal,
          (matches_reference_iff reference _).1 (h.0.runs ∙ peer-transcript h.0.peer v h.0.is_peer),
        )
        refl,
    schemata_agree builds v h.1,
  )

  answer-agrees :
      (turn : Turn)
      → IsRun
      → IsAnswer turn
      → Agrees (diffsecp_digest reference (length reference)) turn
  answer-agrees turn v h =
      let own = (variant t h.peer).target input (length input) in
      let line : answer_line h.name (diffsecp_digest own (length own)) h.path
          ≡ turn_line turn ++ 10 ∷ [] =
        some-injective _ _ (
          sym (replay_path-answer_line h.files h.name _ h.path input h.stands v.short)
          ∙ h.prints) in
      let same : own ≡ reference = peer-transcript h.peer v h.is_peer in
      (answer_agrees-answer_line h.name h.path (turn_line turn) (diffsecp_digest own (length own))
          (diffsecp_digest reference (length reference)) h.named
          (diffsecp_digest-lt own (length own)) (diffsecp_digest-lt reference (length reference))
          line).1
        (ap (λ x. diffsecp_digest x (length x)) same)

  answers_agree :
      (turns : List Turn)
      → IsRun
      → All IsAnswer turns
      → All (Agrees (diffsecp_digest reference (length reference))) turns
  answers_agree [] v h = tt
  answers_agree (turn ∷ turns) v h = (answer-agrees turn v h.0, answers_agree turns v h.1)

  -- For a target whose module keeps its promise: if the other builds keep the target's contract with
  -- the reference (for the Schnorr target, with `FailsAlike`), every schemata build with no mutant on
  -- runs as such a build and makes no illegal call, and every oracle answers the line that replay
  -- prints with such a build for a path at which the input stands, then `LLVMFuzzerTestOneInput`
  -- returns 0 on every input of at most 4096 bytes, whatever its sampler, its mutants and its buffers
  -- hold; and the target returns over each of the other builds and, where there is one, over the
  -- reference.
  pub test_one_input-IsPeer :
      (z : Fuzzer) (bs : List (Installed t)) (s : State)
      → IsRun
      → z.reference ≡ variant t r
      → z.variants ≡ map (variant t) bs
      → All (IsPeer t r) bs
      → All IsUnmutated z.builds
      → All IsAnswer (z.answers input (length input))
      → ((after : State) × (test_one_input z (some input) (length input) s ≡ Verdict.passed after))
        × All Return bs
  test_one_input-IsPeer z bs s v e e' peers builds turns = (
    (test_one_input-IsClean z (some input) (length input) s).1 (
        rw (e, e')
          (record {
            fits = v.short;
            builds_agree = transcripts_agree bs v peers;
            schemata_agree = λ _. schemata_agree z.builds v builds;
            oracles_agree = λ _. oracle_check-none _ 1024 _ (answers_agree _ v turns);
          })),
    peers-Return bs v peers,
  )
