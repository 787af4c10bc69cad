-- ===== src/Recovery.antt =====
-- The recovery target of src/targets/recovery.c: recoverable signatures, made or read and mutated.
pub mod Api
pub mod Target
pub mod Agree
