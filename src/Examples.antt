-- ===== src/Examples.antt =====
-- The theorems at concrete inputs.
mod Protocol
mod Lua
mod Replication
mod Snapshot
mod Storage
mod Server
