-- ===== src/Keys.antt =====
-- The keys target of src/targets/keys.c: a register machine over secret and public keys.
pub mod Api
pub mod Contract
pub mod Target
pub mod Machine
pub mod Records
pub mod Cases
pub mod Agree
