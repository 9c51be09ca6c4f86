-- ===== src/Storage.antt =====
-- The package storage: errors, options and the types that the stores share.
pub mod Errors
pub mod Options
pub mod Stores
pub mod Reads
pub mod KvUtil
