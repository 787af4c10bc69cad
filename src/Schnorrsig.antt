-- ===== src/Schnorrsig.antt =====
-- The Schnorr signature target of src/targets/schnorrsig.c.
pub mod Api
pub mod Contract
pub mod Target
pub mod Machine
pub mod Constructed
pub mod Records
pub mod Parts
pub mod Agree
