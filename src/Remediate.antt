-- ===== src/Remediate.antt =====
-- internal/remediate: the plan that would fix what a scan found, and the shell text that a person reads.
pub mod Sysctl
pub mod Shell
pub mod Engine
pub mod Fixes
mod Tests
