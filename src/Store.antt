-- ===== src/Store.antt =====
-- internal/pgstore: the registry in Postgres. A table is the list of its rows, in order of
-- insertion; each SQL statement is a function on tables, with the CHECK and UNIQUE constraints of
-- migrations/*.up.sql; a transaction that fails leaves the database as it was.
pub mod Tables
pub mod Register
pub mod Queries
pub mod Proposals
pub mod Valid
pub mod Versions
pub mod Gate
pub mod Effects
pub mod Reach
pub mod Tenants
