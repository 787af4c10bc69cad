-- ===== src/Tests.antt =====
-- The theorems at concrete inputs.
mod Bytes
mod Calls
mod Field
mod Scalar
mod Recovery
mod Keys
mod Schnorrsig
mod Ellswift
mod Ecdsa
mod Group
mod Musig
mod Sha256
mod Logs
mod Oracle
mod Replay
mod Fuzz
mod Start
mod Family
