-- ===== src/Config.antt =====
-- src/config.rs: names, the mode, the peer list, identities, the paths of the state directory, and its files.
pub mod Name
pub mod Mode
pub mod Paths
pub mod Identity
pub mod Key
pub mod Iroh
pub mod Peers
pub mod Store
