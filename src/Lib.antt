-- ===== src/Lib.antt =====
-- A model of redis-inmemory-replica: a Redis replica in memory, which reads a snapshot and a stream of
-- commands from a master and keeps their effect in a sharded engine.
--
-- The parts and their files:
-- - Base: the shared types, lists over native numbers, results, signed integers and bit masks.
-- - Stream: the buffered byte streams that the protocol reads (bufio.Reader over a connection): a
--   stream is the bytes still to come, and an operation returns its result and what it leaves.
-- - Protocol: the package protocol/. Types and Command are types.go (Value, ParseCommand), Show its
--   texts and accessors; Integer is parseInt64 of reader.go and the integers of writer.go; Reader is
--   ReadNext of reader.go with its five readers; Bulk is ReadBulkString and
--   ReadBulkStringForReplication; Skip is Skip; Writer is writer.go. Resp is the abstract reply of the
--   protocol, which the proofs refer to.
-- - Storage: the package storage/. Map is Go's map as an association list; Value is value.go; Memory
--   is the state of MemoryStorage in memory.go, and its child modules are the methods: Access (Get,
--   Set, Expire, TTL, PTTL, Type), Batch (Del, Exists), Keyspace (Keys, KeyCount, MemoryUsage,
--   FlushAll, SelectDB), Scan, Evict (EvictLRU) and New (NewMemory). WellFormed has the invariant and
--   the abstract view, a map from databases and keys to values; Matching is matching.go.
-- - Replication: the package replication/. Lzf is lzf.go; Apply is processCommand and executeCommand
--   of client.go, over the engine; Handler is rdbStorageHandler of client.go, which batches the keys of
--   a snapshot. Rdb is rdb.go: Rdb/Strings its lengths and strings, Rdb/Values its values, Rdb/Parse
--   Parse over any RDBHandler; Rdb/Encode writes snapshots out on their own, as the specification that
--   the parser is held against: strings of at most 100000 bytes as they stand, compressed ones, integers
--   that are not negative where they have 8 or 16 bits; strings, lists, sets, hashes and quicklists; and Rdb/Load is the parser with the handler of the engine. StreamBuffer
--   is rdbStreamBuffer and FullSync performFullSync of client.go.
-- - Server: server/server.go. Server.antt has the state of the server and of a connection; Replies is
--   writeString to writeResult, Items the values they convert; Data are the handlers that read the
--   engine, Admin and Info those that do not, Scripts EVAL, EVALSHA and SCRIPT over the interface of the Lua
--   engine, Redirect the writes that go to the master; Dispatch is executeCommand and the loop handle.
--   Answers has the proofs.
-- - Lua: lua/engine.go. The cache of scripts, Eval, EvalSHA and the commands that scripts call.
-- - Examples: the theorems at concrete inputs.
--
-- How they meet: a client reads a value (Protocol.Reader), makes it a command (Protocol.Command),
-- filters and executes it (Replication.Apply) on the engine (Storage.Memory). A snapshot is read in chunks
-- (Protocol.Bulk), collected (Replication.StreamBuffer) and parsed (Replication.Rdb), with strings that
-- may be compressed (Replication.Lzf); the parser calls the handler (Replication.Handler), which writes
-- to the engine. A client of the server is read and parsed by the same reader (Protocol) and served from
-- the same engine (Server.Dispatch).
--
-- State and errors: a method of the engine is a function of the state that returns the new state, or
-- `none` where Go would panic. Every method is one step: the locks, and so interleavings inside a
-- method, are not modelled. Times are numbers that the methods take, one for each reading of the
-- clock: Exists, Keys and Scan read it anew for each key. The hash of the keys (xxhash), the order of
-- `range` in an eviction, `regexp` and `filepath.Match` are parameters.
--
-- Bounds and fuel: the reader's recursion has as much fuel as the stream has bytes, and every value
-- takes one; the chunks of a bulk read have one step for each byte; the LZF loop has one step for each
-- byte of its input, the loops of a connection and of the RDB parser too; the reads of the collected
-- chunks have one for each byte and chunk; the automaton one for each byte of the key and of the
-- pattern, and one more; the rounds of an eviction one for each key to evict, and one more. An int64 is
-- its value, with the wrap-around of parseInt64 written out; lengths and counters stay
-- below 2 ^ 62, and shard counts are at most 2 ^ 43.
--
-- Not modelled: the sync coordinator (replication/sync.go), the connections, timeouts and reconnection
-- of the client, the listener and the shutdown of the server, the options and the facade (options.go,
-- replica.go), the cleanup of expired keys and the reports of memory.go. They are I/O and wiring, or
-- await their models. The sections of INFO on the memory and on the keys, the network of the server and
-- the Lua interpreter, with the conversions of its tables, are parameters. A script that does not end
-- is not modelled, nor are the globals that a script leaves behind in a pooled state.
--
-- `strings.ToUpper` is modelled on ASCII text only (Protocol.Command): on a name or an option with a
-- letter above 127, such as a dotless i, the model is not the source.
pub mod Base
pub mod Stream
pub mod Protocol
pub mod Replication
pub mod Storage
pub mod Server
pub mod Lua
pub mod Examples
