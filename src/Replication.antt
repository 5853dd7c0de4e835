-- ===== src/Replication.antt =====
-- The package replication/: the LZF decoder and the RDB parser, and the client that applies the
-- commands of the master.
pub mod Lzf
pub mod Apply
pub mod Handler
pub mod Rdb
pub mod StreamBuffer
pub mod FullSync
