-- ===== src/Store.antt =====
-- internal/store
pub mod Table
pub mod Schema
pub mod Live
pub mod Rollup
pub mod Attempts
pub mod Since
pub mod History
pub mod Migrate
