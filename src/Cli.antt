-- ===== src/Cli.antt =====
-- internal/cli: how the evaluated findings become an exit code.
pub mod Exit
pub mod Gate
