-- ===== src/Protocol/Bulk.antt =====
-- `ReadBulkString` and `ReadBulkStringForReplication` of protocol/reader.go: bulk strings that are
-- handed to a callback in chunks of 8192 bytes. The callback is a step on a state, with an error.
pub mod Collect
use Prim.Native.Nat.{min}
use redis_inmemory_replica.Base.{
  ℕ, zero, suc, ◌-◌, List, Bytes, Result, ok, err, Option, none, some, length, ltb, ◌==◌,
  if◌then◌else◌,
}
use redis_inmemory_replica.Stream.{
  Stream, pure, fail, lift, ◌>>=◌, ◌>>◌, map_err, read_byte, read_full,
}
use redis_inmemory_replica.Protocol.Types.{type_bulk_string}
use redis_inmemory_replica.Protocol.Reader.{
  Error, io, expected_bulk_string, chunk_size, read_bulk_length, expect_crlf,
}

module _ {S : Type 0} (fn : S → Option Bytes → Result Error S) where
  abbrev pub next_size : ℕ → ℕ
  next_size remaining = if ltb remaining chunk_size then remaining else chunk_size

  -- The loop `for remaining > 0`, on as much fuel as there are bytes to read.
  unfoldable pub read_chunks : ℕ → ℕ → S → Stream Error S
  unfolding read_full
  read_chunks zero remaining acc = pure acc
  read_chunks (suc f) remaining acc =
      let round : Stream Error S = (do
        chunk ← map_err io (read_full (next_size remaining))
        acc' ← lift (fn acc (some chunk))
        read_chunks f (remaining - length chunk) acc') in
      if remaining == 0 then pure acc else round

  -- What both do up to the end of the data; the terminator is what follows it.
  abbrev pub stream_data : Stream Error (Unit {0}) → S → Option ℕ → Stream Error S
  stream_data terminator acc none = lift (fn acc none)
  stream_data terminator acc (some n) = do acc' ← read_chunks n n acc; terminator; pure acc'

  unfoldable pub stream_bulk : Stream Error (Unit {0}) → S → ℕ → Stream Error S
  unfolding read_bulk_length read_chunks
  stream_bulk terminator acc c =
      if c == type_bulk_string
      then (do n ← read_bulk_length; stream_data terminator acc n)
      else fail (expected_bulk_string c)

  -- `ReadBulkString`
  unfoldable pub read_bulk_string_chunks : S → Stream Error S
  unfolding stream_bulk expect_crlf read_byte
  read_bulk_string_chunks acc = do c ← map_err io read_byte; stream_bulk expect_crlf acc c

  -- `ReadBulkStringForReplication`: the data has no CRLF behind it.
  unfoldable pub read_bulk_string_for_replication : S → Stream Error S
  unfolding stream_bulk read_byte
  read_bulk_string_for_replication acc = do c ← map_err io read_byte; stream_bulk (pure tt) acc c
