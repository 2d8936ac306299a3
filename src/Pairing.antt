-- ===== src/Pairing.antt =====
-- src/pairing.rs: the invite code, versions, names and tokens of a pairing.
pub mod Base64
pub mod Code
pub mod Version
pub mod Token
pub mod Join
pub mod Distinct
