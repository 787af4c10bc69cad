-- ===== src/Field.antt =====
-- The field target of src/targets/field.c: a register machine over libsecp's field arithmetic.
pub mod Api
pub mod Contract
pub mod Target
pub mod Registers
pub mod Cases
pub mod Agree
