-- ===== src/Hub.antt =====
-- internal/hub: the daemon on each machine.
pub mod DiscoveryHealth
pub mod Log
pub mod Operations
pub mod PeerHealth
pub mod RelPath
pub mod Relay
pub mod RelayHistory
