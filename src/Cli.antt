-- ===== src/Cli.antt =====
-- The commands of cli/ that work on local files.
pub mod Vapid
