-- ===== src/Musig.antt =====
-- The MuSig2 target of src/targets/musig.c.
pub mod Api
pub mod Contract
pub mod Target
pub mod Aggregate
pub mod Machine
pub mod Signers
pub mod Tweaks
pub mod Nonces
pub mod Rounds
pub mod Agree
