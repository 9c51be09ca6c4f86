-- ===== src/InMemory.antt =====
-- The package storage/inmemory.
pub mod Ring
pub mod ValueStore
pub mod Art
pub mod KeyValueStore
