-- ===== src/Drop/Transfer.antt =====
-- A sender and a receiver of internal/drop joined: the chunks of SendDrop fed to the loop of
-- ReceiveDrop.
pub mod Chunks
pub mod Delivery
pub mod EndToEnd
mod Tests
