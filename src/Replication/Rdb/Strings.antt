-- ===== src/Replication/Rdb/Strings.antt =====
-- `readLength`, `readString`, `readStringData` and `readLZFString` of replication/rdb.go.
pub mod Encode
use redis_inmemory_replica.Base.{
  ℕ, suc, ◌+◌, ◌-◌, ◌*◌, ◌/◌, ◌%◌, ◌^◌, [], ◌∷◌, ◌++◌, Bytes, codes, Result, ok, err, ℤ, pos,
  negsuc, ltb, ◌==◌, if◌then◌else◌,
}
use redis_inmemory_replica.Stream.{lift, read_byte, read_full}
use redis_inmemory_replica.Protocol.Integer.{decimal, format_int}
use redis_inmemory_replica.Replication.Lzf.{lzf_decompress}
use redis_inmemory_replica.Replication.Rdb.{
  VersionStrategy, RdbError, io, invalid_special_length, unsupported_encoding, string_too_large,
  string_data_failed, lzf_compressed_length, lzf_uncompressed_length, lzf_data_failed, lzf_failed,
  Read, pure, fail, stream, wrap, wrapped, counted, continue, ◌>>=◌, ◌>>◌, little_endian,
  big_endian, can_skip, rescue, rescued,
}

-- A number of `n` bytes.
unfoldable pub read_little : ℕ → Read ℕ
unfolding read_full
read_little n = do bytes ← stream io (read_full n); pure (little_endian bytes)

unfoldable pub read_big : ℕ → Read ℕ
unfolding read_full
read_big n = do bytes ← stream io (read_full n); pure (big_endian bytes)

unfoldable pub next_byte : Read ℕ
unfolding read_byte
next_byte = stream io read_byte

abbrev pub special_length : ℕ → Read ℕ
special_length encoding =
    if encoding == 0
    then next_byte
    else if encoding == 1
    then read_little 2
    else if encoding == 2
    then read_little 4
    else fail (invalid_special_length encoding)

abbrev pub length_from : ℕ → Read ℕ
length_from b =
    if b / 64 == 0
    then pure (b % 64)
    else if b / 64 == 1
    then (do b2 ← next_byte; pure (b % 64 * 256 + b2))
    else if b / 64 == 2
    then read_big 4
    else special_length (b % 64)

-- `readLength`
unfoldable pub read_length : Read ℕ
unfolding next_byte read_little read_big
read_length = do b ← next_byte; length_from b

abbrev pub max_string : ℕ
max_string = 100000

-- `readStringData`
unfoldable pub read_string_data : ℕ → Read Bytes
unfolding read_full
read_string_data n =
    if n == 0
    then pure []
    else if ltb max_string n
    then fail (string_too_large n)
    else stream string_data_failed (read_full n)

-- An `int32` from its pattern.
abbrev pub signed32 : ℕ → ℤ
signed32 n = if ltb n (2 ^ 31) then pos n else negsuc (2 ^ 32 - n - 1)

-- The text that stands for a string that cannot be decompressed.
abbrev pub placeholder : ℕ → Bytes
placeholder n = codes "LZF_DECOMPRESSION_FAILED_" ++ decimal n ++ codes "_BYTES"

module _ (strategy : VersionStrategy) where
  abbrev pub decompressed : ℕ → Bytes → Read Bytes
  decompressed n compressed =
      rescue strategy (stream lzf_failed (lift (lzf_decompress compressed n)))
        (pure (placeholder n))

  -- `readLZFString`
  unfoldable pub read_lzf_string : Read Bytes
  unfolding read_length read_full lzf_decompress can_skip
  read_lzf_string = do
    compressed ← wrap lzf_compressed_length read_length
    uncompressed ← wrap lzf_uncompressed_length read_length
    bytes ← stream lzf_data_failed (read_full compressed)
    decompressed uncompressed bytes

  abbrev pub special_string : ℕ → Read Bytes
  special_string encoding =
      if encoding == 0
      then (do b ← next_byte; pure (decimal b))
      else if encoding == 1
      then (do n ← read_little 2; pure (decimal n))
      else if encoding == 2
      then (do n ← read_little 4; pure (format_int (signed32 n)))
      else if encoding == 3
      then read_lzf_string
      else rescue strategy (fail (unsupported_encoding encoding)) (pure [])

  abbrev pub string_from : ℕ → Read Bytes
  string_from b =
      if b / 64 == 0
      then read_string_data (b % 64)
      else if b / 64 == 1
      then (do b2 ← next_byte; read_string_data (b % 64 * 256 + b2))
      else if b / 64 == 2
      then (do n ← read_big 4; read_string_data n)
      else special_string (b % 64)

  -- `readString` and `readBinaryString`
  unfoldable pub read_string : Read Bytes
  unfolding next_byte read_little read_big read_string_data read_lzf_string can_skip
  read_string = do b ← next_byte; string_from b
