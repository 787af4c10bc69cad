-- ===== src/Ecdsa.antt =====
-- The ECDSA target of src/targets/ecdsa.c.
pub mod Api
pub mod Contract
pub mod Der
pub mod Sequence
pub mod Target
pub mod Machine
pub mod Records
pub mod Signing
pub mod Arrays
pub mod Sources
pub mod Agree
