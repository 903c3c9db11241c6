-- ===== src/Store.antt =====
-- The coordinator's tables (src/coordinator/src/persistence/postgres.rs, receipts/) and the actions
-- on them. A statement that fails changes nothing and ends the action, as `?` does.
pub mod Columns
pub mod Defs
pub mod Receipts
pub mod Archive
pub mod Archives
pub mod Schema
pub mod Migrations
pub mod Migrated
pub mod Connect
pub mod Nonces
