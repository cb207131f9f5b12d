-- ===== src/Drop.antt =====
-- internal/drop: the QuickDrop transfer protocol.
pub mod Types
pub mod Quota
pub mod Sender
pub mod Receiver
pub mod Metadata
pub mod Tombstones
pub mod Negotiation
pub mod Receive
pub mod Transfer
