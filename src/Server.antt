-- ===== src/Server.antt =====
-- The daemon's HTTP side: internal/server.
pub mod Cursor
pub mod Config
pub mod Feed
pub mod Api
pub mod Handlers
pub mod Routes
