-- ===== src/Examples/Snapshot.antt =====
-- The theorems of the snapshots at concrete inputs: a snapshot of version 11 with auxiliary fields, a
-- size hint, a string with an expiry and a list, and what arrives behind it.
use redis_inmemory_replica.Base.{
  ℕ, ◌+◌, ◌≡◌, refl, List, [], ◌∷◌, ◌++◌, Bytes, codes, pos, ok, some, length, take, drop, arith,
  All,
}
use redis_inmemory_replica.Protocol.Integer.{decimal}
use redis_inmemory_replica.Protocol.Reader.{crlf_bytes}
use redis_inmemory_replica.Storage.Memory.{Shard}
use redis_inmemory_replica.Storage.Memory.New.{new_memory}
use redis_inmemory_replica.Replication.Handler.{new_handler}
use redis_inmemory_replica.Replication.Handler.Batching.{direct}
use redis_inmemory_replica.Replication.StreamBuffer.{StreamBuffer, read}
use redis_inmemory_replica.Replication.StreamBuffer.Pieces.{remaining}
use redis_inmemory_replica.Replication.StreamBuffer.Contents.{or_eof, read-remaining}
use redis_inmemory_replica.Replication.Rdb.{VersionStrategy, strategy_of}
use redis_inmemory_replica.Replication.Rdb.Strings.{read_string}
use redis_inmemory_replica.Replication.Rdb.Strings.Encode.{
  Text, text_of, encode_text, read_string-encode_text,
}
use redis_inmemory_replica.Replication.Rdb.Values.Encode.{Item}
use redis_inmemory_replica.Replication.Rdb.Parse.{ended, parse_rdb}
use redis_inmemory_replica.Replication.Rdb.Encode.{Entry, Expiry, IsEntry, encode_snapshot, deliver}
use redis_inmemory_replica.Replication.Rdb.RoundTrip.{IsVersion, parse_rdb-encode_snapshot}
use redis_inmemory_replica.Replication.Rdb.Load.{
  storage_handler, storage_handler-IsQuiet, entry_events, parsed_storage, reported,
  parse_rdb-direct,
}
use redis_inmemory_replica.Replication.FullSync.{perform_full_sync}
use redis_inmemory_replica.Replication.FullSync.Snapshot.{after_load, perform_full_sync-direct}

abbrev sum : Bytes → ℕ
sum [] = 0
sum (c ∷ key) = c + sum key

abbrev first : Shard → ℕ
first sh = 0

abbrev version_11 : Bytes
version_11 = codes "0011"

version_11-IsVersion : IsVersion version_11
version_11-IsVersion = record {
  number = 11;
  four = refl;
  reads = unfold redis_inmemory_replica.Replication.Apply.atoi in refl;
  supported = omega arith;
}

abbrev entries_read : List Entry
entries_read =
    Entry.database 0
    ∷ Entry.aux (Text.plain (codes "ctime")) (Text.number 77)
    ∷ Entry.aux (Text.plain (codes "redis-bits")) (Text.byte_number 64)
    ∷ Entry.sizes 2 1
    ∷ Entry.key (Expiry.seconds 9) (Text.plain (codes "k")) (Item.text (Text.plain (codes "v")))
    ∷ Entry.key Expiry.never (Text.plain (codes "l")) (Item.list (Text.number 5 ∷ []))
    ∷ []

entries_read-IsEntry : All IsEntry entries_read
entries_read-IsEntry = (
  omega arith,
  (
    (omega arith, omega arith),
    (
      (omega arith, omega arith),
      (
        (omega arith, omega arith),
        (
          (omega arith, omega arith, omega arith),
          ((tt, omega arith, (omega arith, (omega arith, tt))), tt),
        ),
      ),
    ),
  ),
)

abbrev trailer_bytes : Bytes
trailer_bytes = codes "checksum"

parse_rdb-encode_snapshot_example :
    parse_rdb
      (storage_handler sum first 5)
      (encode_snapshot version_11 entries_read trailer_bytes)
      (new_handler (new_memory []) [])
    ≡ ended
        (storage_handler sum first 5)
        (deliver (storage_handler sum first 5) entries_read (new_handler (new_memory []) []))
parse_rdb-encode_snapshot_example =
    parse_rdb-encode_snapshot (storage_handler sum first 5) version_11 entries_read trailer_bytes
      (new_handler (new_memory []) []) (storage_handler-IsQuiet sum first 5) version_11-IsVersion
      entries_read-IsEntry

parse_rdb-direct_example :
    parsed_storage (
      parse_rdb
        (storage_handler sum first 5)
        (encode_snapshot version_11 entries_read trailer_bytes)
        (new_handler (new_memory []) (pos 0 ∷ [])))
    ≡ reported (direct sum first 5 (pos 0 ∷ []) (entry_events entries_read) (pos 0) (new_memory []))
parse_rdb-direct_example =
    parse_rdb-direct sum first 5 version_11 entries_read trailer_bytes (new_memory []) (pos 0 ∷ [])
      version_11-IsVersion entries_read-IsEntry

abbrev payload_size : ℕ
payload_size = length (encode_snapshot version_11 entries_read trailer_bytes)

small : payload_size ≡ 68
unfolding encode_snapshot
small = refl

perform_full_sync-direct_example :
    perform_full_sync sum first 5 []
      (b'$'
        ∷ (decimal payload_size
            ++ (crlf_bytes
                ++ (encode_snapshot version_11 entries_read trailer_bytes ++ codes "*1"))))
      (new_memory [])
    ≡ (
      after_load payload_size
          (direct sum first 5 [] (entry_events entries_read) (pos 0) (new_memory [])),
      codes "*1",
    )
perform_full_sync-direct_example =
    perform_full_sync-direct sum first 5 [] version_11 entries_read trailer_bytes (codes "*1")
      (new_memory []) version_11-IsVersion entries_read-IsEntry (omega (arith, small))

abbrev strategy : VersionStrategy
strategy = strategy_of (pos 11)

-- -2 in 32 bits.
read_string-encode_text_example :
    read_string strategy (0, encode_text (Text.number 4294967294) ++ codes "rest")
    ≡ (ok (text_of (Text.number 4294967294)), (0, codes "rest"))
read_string-encode_text_example =
    read_string-encode_text strategy 0 (Text.number 4294967294) (codes "rest") (omega arith)

abbrev buffer : StreamBuffer
buffer = record {
  chunks = codes "abc" ∷ [] ∷ codes "de" ∷ [];
  pos = 1;
  chunk_idx = 0;
  chunk_pos = 1;
}

read-remaining_example :
    (b' : StreamBuffer) × (read 3 buffer ≡ some (or_eof (take 3 (remaining buffer)), b'))
    × (remaining b' ≡ drop 3 (remaining buffer))
read-remaining_example = read-remaining 3 buffer
