-- ===== src/Store.antt =====
-- The SQLite persistence backend, store/sqlite_store.py: its tables and the operations on each.
pub mod Db
pub mod Queue
pub mod Merge
pub mod Listings
pub mod Feedback
pub mod History
pub mod Schema
