-- ===== src/Scalar.antt =====
-- The scalar target of src/targets/scalar.c: a register machine over libsecp's scalar arithmetic.
pub mod Api
pub mod Contract
pub mod Target
pub mod Cases
pub mod Agree
