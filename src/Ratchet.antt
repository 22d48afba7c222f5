-- ===== src/Ratchet.antt =====
-- The auto-fire ledger and the improver: internal/pgstore/ratchets.go, internal/server/improver.go
-- and the dispatch in internal/server/workers.go.
pub mod Ledger
pub mod Improver
pub mod Limits
pub mod Recording
