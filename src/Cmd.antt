-- ===== src/Cmd.antt =====
-- cmd/tantu: the command line.
pub mod Args
