-- ===== src/Fuzz.antt =====
-- The fuzzer's entry point in src/fuzz.c: every build on one input, then the mutants, then the
-- oracles. The builds are parameters; what each of them does is one target of src/targets.
pub mod Compare
pub mod Mutants
pub mod Entry
pub mod Start
pub mod Family
