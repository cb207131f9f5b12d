-- ===== src/Protocol.antt =====
-- internal/protocol: the frames between two machines.
pub mod Codec
