-- ===== src/Ellswift.antt =====
-- The ElligatorSwift target of src/targets/ellswift.c.
pub mod Api
pub mod Contract
pub mod Target
pub mod Cases
pub mod Agree
