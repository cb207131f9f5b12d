-- ===== src/Bridge.antt =====
-- internal/bridge: the sign-ins that a listener holds for its peers, and the headers that cross.
pub mod Headers
pub mod Replay
pub mod Sessions
