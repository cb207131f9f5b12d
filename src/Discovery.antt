-- ===== src/Discovery.antt =====
-- internal/discovery: how the search for other machines in the network reports itself.
pub mod Health
