-- ===== src/Storage.antt =====
-- The package storage/: the sharded in-memory engine and the pattern matchers of its keys.
pub mod Map
pub mod Value
pub mod Memory
pub mod Matching
