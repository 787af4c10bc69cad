-- ===== src/Group.antt =====
-- The group target of src/targets/group.c.
pub mod Api
pub mod Contract
pub mod Target
pub mod Machine
pub mod Points
pub mod Records
pub mod Multi
pub mod Due
pub mod Additions
pub mod Cases
pub mod Agree
