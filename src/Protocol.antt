-- ===== src/Protocol.antt =====
-- The package protocol/: RESP values, the streaming reader, the writer and the parsing of commands.
pub mod Types
pub mod Integer
pub mod Reader
pub mod Writer
pub mod Resp
pub mod Skip
pub mod Bulk
pub mod Command
pub mod Show
