-- ===== src/Syncer.antt =====
-- internal/syncer/syncer.go: the change feed written to the agent's skills directory.
pub mod Disk
pub mod Steps
pub mod Run
pub mod Kept
pub mod Effects
pub mod Again
pub mod Fresh
pub mod Faultless
