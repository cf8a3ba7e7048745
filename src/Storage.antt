-- ===== src/Storage.antt =====
-- app/persistence/storage.py.
pub mod Capacity
mod Tests
