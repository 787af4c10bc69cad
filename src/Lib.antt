-- ===== src/Lib.antt =====
-- diffsecp compares builds of libsecp256k1. A target reads an input as a program of calls of the
-- library and logs every result in a transcript; two builds that compute the same leave the same
-- transcript. The fuzzer runs each input on every build of its process and on builds for other
-- architectures (the oracles), and lets mutants of the library tell which inputs see a fault.
--
-- The parts, and the files that model them:
-- - src/reader.h: Reader. The reader is the memory at its pointer and the count of bytes left;
--   Reader/Stream is its view as an endless stream.
-- - src/transcript.h: Transcript. The buffer, its capacity and its length; an abort is `none`.
--   Transcript/Log is its view as the list of bytes that were logged.
-- - src/targets/: a target is a program in the monad of Run, whose state is the reader and the
--   transcript and whose failure is an abort. Run/Agree is a logic for two runs of a target over
--   two builds: both return, with the same log. Run/Steps, Run/Loop and Run/Whole are its rules
--   for the operations, the loop and the whole call.
-- - src/targets/field.c: Field. `FieldApi` stands for the functions of libsecp that it calls, and
--   `FieldContract` for what libsecp documents of them, for two builds at once: a call within the
--   bounds on magnitudes does not abort, and both builds get the same value. Registers are a
--   function of an index, so that the pointers d, a and b may name the same one.
-- - src/targets/scalar.c: Scalar, in the same way over `ScalarApi` and `ScalarContract`; the copies
--   `a` and `y` of the operands are values, and `d` and `b` indices.
-- - src/targets/recovery.c: Recovery, over `RecoveryApi` and `RecoveryContract`.
-- - src/targets/keys.c: Keys, over `KeysApi` and `KeysContract`; Keys/Target has its functions and
--   Keys/Machine the switch and the loop. A zeroed public key is an object that no call may get.
-- - src/targets/schnorrsig.c: Schnorrsig, over `SchnorrsigApi` and `SchnorrsigContract`;
--   Schnorrsig/Target has its functions and Schnorrsig/Machine the target. A nonce function is a
--   function, so that libsecp may call it.
--   `SchnorrsigContract` is what libsecp documents, and `FailsAlike` what it does not: that two builds
--   leave the same bytes after the two failing calls whose output the target records all the same.
-- - src/targets/ellswift.c: Ellswift, over `EllswiftApi` and `EllswiftContract`, which hold those of
--   the field module.
-- - src/targets/ecdsa.c: Ecdsa, over `EcdsaApi` and `EcdsaContract`. The arrays are the bytes that
--   are in use, and a write past the end of `der` or `body` is `none`; Ecdsa/Der has the encodings
--   and Run/Short the logic for inputs within the limit, which bounds `der`.
-- - src/targets/group.c: Group, over `GroupApi` and `GroupContract`, in which builds hold the same
--   points and not the same Jacobian coordinates; Group/Target has its functions and
--   Group/Machine the multiplication of many points, the switch and the loop. The callback of the
--   multi-point multiplication is a function of the index.
-- - src/targets/musig.c: Musig, over `MusigApi` and `MusigContract`. The signers' arrays are lists
--   of signers, and a return from the middle of the target is a `none` that its parts pass on;
--   Musig/Aggregate and Musig/Machine have the target, Musig/Tweaks is about the keys, Musig/Nonces and
--   Musig/Rounds about the protocol.
-- - src/sha256.h: Sha256. The words `w`, `v` and `state` are lists. Sha256/Standard is the
--   function as FIPS 180-4 defines it, with constants that are computed from their definition.
-- - src/digest.h: Digest, and the digits of a digest in Hex.
-- - src/replay.c: Replay, with `dump` in Replay/Dump and `main` in Replay/Main. stdin is a list of
--   bytes, with an error or none at its end, a file what its path holds, and the target a function that
--   returns.
-- - src/oracle.h: Oracle, with `oracle_start` in Oracle/Start and `oracle_no_answer` in
--   Oracle/Ended. What `read` and `write` do is a list of their results; whether a command runs, and
--   what `waitpid` says, are parameters.
-- - src/fuzz.c: Fuzz/Compare is the comparison of transcripts, Fuzz/Mutants the loops of
--   `run_mutants`, and Fuzz/Entry `LLVMFuzzerTestOneInput` with the self test of src/variant.c, and
--   Fuzz/Start `LLVMFuzzerInitialize`, to which the environment, `atof` and what the processes do are
--   parameters. A build is a function from an input to its transcript there, an abort of its target
--   being an empty transcript; Fuzz/Family has the runs themselves.
-- - Fuzz/Family is the interface between a target and the fuzzer, which Fuzz/Family/Targets fills
--   for nine targets: a run of each build in a buffer of the fuzzer, and that builds which keep the
--   target's contract leave the same transcript.
--
-- Integers: the numbers of the code are ℕ; `uint64_t`, `uint32_t` and `unsigned char` are reduced
-- where the code wraps or narrows them, and an `int` that libsecp returns is a ℤ. Loops over lists
-- and counters are structural; `replay_paths` takes fuel of one more than the bytes on stdin, since
-- each round takes at least one, and `while_input` takes the bound on rounds that the target has.
--
-- Not modelled: libsecp itself, the submodules under external/; what pipes and processes
-- do beyond their results; the file that an oracle reads its input from; `variant_init`, which
-- sets up libsecp; src/targets/silentpayments.c; the Makefile, the corpus, and the
-- scripts that write mutants and dictionaries.
mod Prelude
mod Limits
pub mod Reader
pub mod Transcript
pub mod Run
pub mod Digest
pub mod Hex
pub mod Replay
pub mod Oracle
pub mod Fuzz
pub mod Field
pub mod Scalar
pub mod Recovery
pub mod Keys
pub mod Schnorrsig
pub mod Ellswift
pub mod Ecdsa
pub mod Group
pub mod Musig
pub mod Sha256
mod Tests
