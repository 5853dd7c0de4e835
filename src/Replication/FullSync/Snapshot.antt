-- ===== src/Replication/FullSync/Snapshot.antt =====
-- A full synchronisation from the wire to the engine.
use mathlib.Core.List.{append_assoc, append-nil}
use redis_inmemory_replica.Base.{
  ℕ, suc, ◌≤◌, ◌≡◌, refl, sym, ap, ◌∙◌, true, false, inl, inr, List, [], ◌∷◌, ◌++◌, Bytes, none,
  some, ℤ, pos, ok, err, length, ltb, leb, Bool-cases, if◌then◌else◌, length-append, All, arith,
}
use redis_inmemory_replica.Protocol.Integer.{decimal}
use redis_inmemory_replica.Protocol.Reader.{crlf_bytes, max_bulk_size}
use redis_inmemory_replica.Protocol.Bulk.Collect.{replication-Saw}
use redis_inmemory_replica.Storage.Memory.{Shard, Memory}
use redis_inmemory_replica.Replication.Handler.Batching.{direct}
use redis_inmemory_replica.Replication.StreamBuffer.{drain}
use redis_inmemory_replica.Replication.StreamBuffer.Pieces.{concat, remaining}
use redis_inmemory_replica.Replication.StreamBuffer.Drain.{drain-remaining}
use redis_inmemory_replica.Replication.Apply.{Outcome}
use redis_inmemory_replica.Replication.Rdb.{handler_failed}
use redis_inmemory_replica.Replication.Rdb.Encode.{Entry, IsEntry, encode_snapshot}
use redis_inmemory_replica.Replication.Rdb.RoundTrip.{IsVersion}
use redis_inmemory_replica.Replication.Rdb.Load.{reported, entry_events, parse_rdb-direct}
use redis_inmemory_replica.Replication.FullSync.{
  Synced, rdb_failed, gather, total_size, buffer_of, small_forgiven, parse_buffer, load_chunks,
  perform_full_sync,
}

-- The chunks are what was seen.
abbrev Collected : Bytes → List Bytes → Type 0
Collected seen chunks = concat chunks ≡ seen

concat-snoc :
    (chunks : List Bytes) (chunk : Bytes) → concat (chunks ++ chunk ∷ []) ≡ concat chunks ++ chunk
concat-snoc [] chunk = append-nil chunk
concat-snoc (c ∷ chunks) chunk =
    ap (λ u. c ++ u) (concat-snoc chunks chunk) ∙ sym (append_assoc c (concat chunks) chunk)

gather-Collected :
    (seen chunk : Bytes) (chunks : List Bytes)
    → Collected seen chunks
    → (later : List Bytes) × (gather chunks (some chunk) ≡ ok later)
      × Collected (seen ++ chunk) later
gather-Collected seen chunk chunks e =
    (chunks ++ chunk ∷ [], refl, concat-snoc chunks chunk ∙ ap (λ u. u ++ chunk) e)

total_size-concat : (chunks : List Bytes) → total_size chunks ≡ length (concat chunks)
total_size-concat [] = refl
total_size-concat (c ∷ chunks) =
    omega (arith, total_size-concat chunks, length-append c (concat chunks))

remaining-buffer_of : (chunks : List Bytes) → remaining (buffer_of chunks) ≡ concat chunks
remaining-buffer_of [] = refl
remaining-buffer_of (c ∷ chunks) = refl

drain-buffer_of :
    (chunks : List Bytes)
    → drain (suc (total_size chunks)) (buffer_of chunks) ≡ some (concat chunks)
drain-buffer_of chunks =
    drain-remaining (suc (total_size chunks)) (buffer_of chunks)
      (omega (arith, total_size-concat chunks, ap length (remaining-buffer_of chunks)))
    ∙ ap (λ u. some u) (remaining-buffer_of chunks)

-- What the client reports of a load: an error counts from 500 bytes on.
abbrev pub after_load : ℕ → Outcome Memory → Synced
after_load size none = none
after_load size (some (ok u, s)) = some (ok tt, s)
after_load size (some (err e, s)) =
    if leb 500 size then some (err (rdb_failed (handler_failed e)), s) else some (ok tt, s)

small_forgiven-after_load :
    (size : ℕ) (o : Outcome Memory) → small_forgiven size (reported o) ≡ after_load size o
small_forgiven-after_load size none = refl
small_forgiven-after_load size (some (ok u, s)) = refl
small_forgiven-after_load size (some (err e, s)) = elim (Bool-cases (leb 500 size)) [
  | inl on ↦ let off : ltb size 500 ≡ false = ground arith in rw (on, off) refl
  | inr off ↦ let on : ltb size 500 ≡ true = ground arith in rw (on, off) refl
]

module _ (hash : Bytes → ℕ) (choose : Shard → ℕ) (now : ℕ) (databases : List ℤ) where
  load_chunks-concat :
      (s : Memory) (chunks : List Bytes) (payload rest : Bytes)
      → concat chunks ≡ payload
      → load_chunks hash choose now databases s (ok chunks, rest)
        ≡ (parse_buffer hash choose now databases (length payload) s (some payload), rest)
  load_chunks-concat s chunks payload rest e =
      ap (λ o. (parse_buffer hash choose now databases (total_size chunks) s o, rest))
        (drain-buffer_of chunks)
      ∙ ap (λ n. (parse_buffer hash choose now databases n s (some (concat chunks)), rest))
          (total_size-concat chunks)
      ∙ ap (λ u. (parse_buffer hash choose now databases (length u) s (some u), rest)) e

  -- A full synchronisation on a payload that is an encoded snapshot of at most 1 GiB leaves the engine
  -- as setting every string of an allowed database at once does, and leaves the bytes behind the
  -- payload. It fails where that fails, unless the payload has fewer than 500 bytes.
  pub perform_full_sync-direct :
      (version : Bytes) (es : List Entry) (trailer rest : Bytes) (s : Memory)
      → IsVersion version
      → All IsEntry es
      → length (encode_snapshot version es trailer) ≤ max_bulk_size
      → perform_full_sync hash choose now databases
          (b'$'
            ∷ (decimal (length (encode_snapshot version es trailer))
                ++ (crlf_bytes ++ (encode_snapshot version es trailer ++ rest))))
          s
        ≡ (
          after_load
              (length (encode_snapshot version es trailer))
              (direct hash choose now databases (entry_events es) (pos 0) s),
          rest,
        )
  unfolding perform_full_sync
  perform_full_sync-direct version es trailer rest s v p size =
      let payload = encode_snapshot version es trailer in
      let (chunks, run, saw) =
        replication-Saw gather Collected (λ seen chunk acc e h. gather-Collected seen chunk acc e)
          payload rest [] size refl in
      ap (load_chunks hash choose now databases s) run
      ∙ load_chunks-concat s chunks payload rest saw
      ∙ ap (λ o. (small_forgiven (length payload) o, rest))
          (parse_rdb-direct hash choose now version es trailer s databases v p)
      ∙ ap (λ o. (o, rest))
          (small_forgiven-after_load (length payload)
            (direct hash choose now databases (entry_events es) (pos 0) s))
