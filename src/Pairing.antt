-- ===== src/Pairing.antt =====
-- internal/pairing: the trusted peers of a machine.
pub mod Address
pub mod Store
pub mod Resolve
pub mod Transcript
pub mod Handshake
