-- ===== src/Replication/FullSync.antt =====
-- `performFullSync` of replication/client.go: the payload of the master is collected in chunks, parsed
-- from there, and loaded into the engine. An error of the parser counts for nothing where there were
-- fewer than 500 bytes. `none` is a panic.
pub mod Snapshot
use redis_inmemory_replica.Base.{
  ℕ, suc, ◌+◌, List, [], ◌∷◌, ◌++◌, Bytes, Option, none, some, ℤ, Result, ok, err, length, ltb,
  if◌then◌else◌,
}
use redis_inmemory_replica.Protocol.Reader.{Error}
use redis_inmemory_replica.Protocol.Bulk.{read_bulk_string_for_replication}
use redis_inmemory_replica.Storage.Memory.{Shard, Memory}
use redis_inmemory_replica.Replication.Handler.{Handler, new_handler}
use redis_inmemory_replica.Replication.StreamBuffer.{StreamBuffer, drain}
use redis_inmemory_replica.Replication.Rdb.{RdbError}
use redis_inmemory_replica.Replication.Rdb.Parse.{Parsed, parse_rdb}
use redis_inmemory_replica.Replication.Rdb.Load.{storage_handler, parsed_storage}

pub data SyncError : Type 0 where
  read_failed : Error → SyncError
  rdb_failed : RdbError → SyncError

-- The callback: a nil chunk is passed over, another is copied to the end of the buffer.
abbrev pub gather : List Bytes → Option Bytes → Result Error (List Bytes)
gather chunks none = ok chunks
gather chunks (some chunk) = ok (chunks ++ chunk ∷ [])

-- `totalSize`
abbrev pub total_size : List Bytes → ℕ
total_size [] = 0
total_size (c ∷ chunks) = length c + total_size chunks

abbrev pub buffer_of : List Bytes → StreamBuffer
buffer_of chunks = record { chunks = chunks; pos = 0; chunk_idx = 0; chunk_pos = 0 }

abbrev pub Synced : Type 0
Synced = Option (Result SyncError (Unit {0}) × Memory)

abbrev pub small_forgiven : ℕ → Option (Result RdbError (Unit {0}) × Memory) → Synced
small_forgiven size none = none
small_forgiven size (some (ok u, s)) = some (ok tt, s)
small_forgiven size (some (err e, s)) = some (if ltb size 500 then ok tt else err (rdb_failed e), s)

module _ (hash : Bytes → ℕ) (choose : Shard → ℕ) (now : ℕ) (databases : List ℤ) where
  abbrev pub parse_buffer : ℕ → Memory → Option Bytes → Synced
  parse_buffer size s none = none
  parse_buffer size s (some input) =
      small_forgiven size (
        parsed_storage
          (parse_rdb (storage_handler hash choose now) input (new_handler s databases)))

  abbrev pub load_chunks : Memory → Result Error (List Bytes) × Bytes → Synced × Bytes
  load_chunks s (err e, rest) = (some (err (read_failed e), s), rest)
  load_chunks s (ok chunks, rest) = (
    parse_buffer (total_size chunks) s (drain (suc (total_size chunks)) (buffer_of chunks)),
    rest,
  )

  -- `performFullSync` on the bytes of the connection, with the bytes it leaves.
  unfoldable pub perform_full_sync : Bytes → Memory → Synced × Bytes
  unfolding read_bulk_string_for_replication drain parse_rdb new_handler
  perform_full_sync connection s =
      load_chunks s (read_bulk_string_for_replication gather [] connection)
