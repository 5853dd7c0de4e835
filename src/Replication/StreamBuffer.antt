-- ===== src/Replication/StreamBuffer.antt =====
-- `rdbStreamBuffer` of replication/client.go: the chunks of a snapshot as a reader. `Read` copies from
-- chunk after chunk until the buffer of its caller, of `want` bytes, is full or no chunk is left; every
-- round of its loop moves to the next chunk or copies a byte at least, so `want` and the number of
-- chunks are fuel enough.
pub mod Pieces
pub mod Contents
pub mod Drain
use redis_inmemory_replica.Base.{
  ℕ, zero, suc, ◌+◌, ◌-◌, Bool, List, [], ◌∷◌, ◌++◌, Bytes, Option, none, some, length, take, drop,
  get_elem?, ltb, leb, ◌==◌, if◌then◌else◌,
}

-- The fields but the logger and the total size.
pub record StreamBuffer : Type 0 where
  pub chunks : List Bytes
  pub pos : ℕ
  pub chunk_idx : ℕ
  pub chunk_pos : ℕ

abbrev pub next_chunk : StreamBuffer → StreamBuffer
next_chunk b = record b { chunk_idx = b.chunk_idx + 1; chunk_pos = 0 }

abbrev pub advanced : ℕ → StreamBuffer → StreamBuffer
advanced n b = record b { chunk_pos = b.chunk_pos + n; pos = b.pos + n }

-- The bytes of one round, at most `want`.
abbrev pub to_copy : ℕ → Bytes → ℕ → ℕ
to_copy want chunk at = if ltb (length chunk - at) want then length chunk - at else want

-- What the loop has to copy, what it has copied, and the buffer.
abbrev pub Copying : Type 0
Copying = ℕ × Bytes × StreamBuffer

abbrev pub copy_from : ℕ → Bytes → StreamBuffer → Bytes → Copying
copy_from want copied b chunk =
    let n = to_copy want chunk b.chunk_pos in
    if leb (length chunk) b.chunk_pos
    then (want, copied, next_chunk b)
    else (want - n, copied ++ take n (drop b.chunk_pos chunk), advanced n b)

-- One round of the loop; `none` when it ends.
unfoldable pub round : ℕ → Bytes → StreamBuffer → Option Copying
round want copied b = if want == 0 then none else elim (get_elem? b.chunks b.chunk_idx) [
  | none ↦ none
  | some chunk ↦ some (copy_from want copied b chunk)
]

abbrev pub continue_copy :
    (ℕ → Bytes → StreamBuffer → Option (Bytes × StreamBuffer))
    → Bytes
    → StreamBuffer
    → Option Copying
    → Option (Bytes × StreamBuffer)
continue_copy again copied b none = some (copied, b)
continue_copy again copied b (some (want', copied', b')) = again want' copied' b'

-- The loop of `Read`; `none` when the fuel is out.
unfoldable pub copy_chunks : ℕ → ℕ → Bytes → StreamBuffer → Option (Bytes × StreamBuffer)
unfolding round
copy_chunks zero want copied b = none
copy_chunks (suc f) want copied b = continue_copy (copy_chunks f) copied b (round want copied b)

-- `io.EOF` is `none` of the inner option.
abbrev pub read_result : Option (Bytes × StreamBuffer) → Option (Option Bytes × StreamBuffer)
read_result none = none
read_result (some ([], b)) = some (none, b)
read_result (some (c ∷ copied, b)) = some (some (c ∷ copied), b)

abbrev pub at_end : StreamBuffer → Bool
at_end b = leb (length b.chunks) b.chunk_idx

-- `Read` into a buffer of `want` bytes.
unfoldable pub read : ℕ → StreamBuffer → Option (Option Bytes × StreamBuffer)
unfolding copy_chunks
read want b =
    if at_end b
    then some (none, b)
    else read_result (copy_chunks (suc (want + length b.chunks)) want [] b)

abbrev pub joined :
    (StreamBuffer → Option Bytes) → Option (Option Bytes × StreamBuffer) → Option Bytes
joined more none = none
joined more (some (none, b)) = some []
joined more (some (some bytes, b)) = elim (more b) [
  | none ↦ none
  | some later ↦ some (bytes ++ later)
]

-- What the `bufio.Reader` over the buffer gets: reads of its size until the end of the file.
unfoldable pub drain : ℕ → StreamBuffer → Option Bytes
unfolding read
drain zero b = none
drain (suc f) b = joined (drain f) (read 4096 b)
