-- ===== src/Server.antt =====
-- server: revisions of a config, the config tracker, and the base server over it.
pub mod Revisions
pub mod ConfigTypes
pub mod Tracker
pub mod InMemory
pub mod BaseServer
pub mod Keyed
mod Examples
