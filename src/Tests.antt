-- ===== src/Tests.antt =====
-- Runs of the program's functions at concrete inputs, and the theorems at such inputs.
mod Nodes
mod Queue
mod Files
mod Registry
mod Tokens
mod Worker
mod Feed
mod Http
mod Ticks
mod Converge
mod Collation
mod Calls
