-- ===== src/Protocol/Bulk/Collect.antt =====
-- What a callback that never fails has seen when a streamed bulk string ends.
use mathlib.Core.List.{append_assoc, append-nil}
use mathlib.Core.Path.{subst}
use redis_inmemory_replica.Base.{
  ℕ, zero, suc, ◌-◌, ◌≤◌, ◌<◌, ◌≡◌, refl, sym, ap, ◌∙◌, [], ◌∷◌, ◌++◌, Bytes, Result, ok, Option,
  some, length, take, drop, length-take, length-drop, take-append-drop, arith, length-append, false,
  ◌==◌,
}
use redis_inmemory_replica.Stream.{Stream, pure, read_byte}
use redis_inmemory_replica.Stream.Consume.{read_full-append}
use redis_inmemory_replica.Protocol.Integer.{decimal}
use redis_inmemory_replica.Protocol.Reader.{
  Error, chunk_size, crlf_bytes, max_bulk_size, expect_crlf,
}
use redis_inmemory_replica.Protocol.Reader.Lines.{read_bulk_length-append, expect_crlf-append}
use redis_inmemory_replica.Protocol.Bulk.{
  next_size, read_chunks, stream_bulk, read_bulk_string_chunks, read_bulk_string_for_replication,
}

-- `P seen acc` is kept by a callback that is handed the next chunk, of at most 8192 bytes.
module _ {S : Type 0} (fn : S → Option Bytes → Result Error S) (P : Bytes → S → Type 0)
    (keep : (seen chunk : Bytes) (acc : S)
      → P seen acc
      → length chunk ≤ chunk_size
      → (acc' : S) × (fn acc (some chunk) ≡ ok acc') × P (seen ++ chunk) acc') where
  -- The stream operation at `s` ends with a state that has seen `text`, and leaves `rest`.
  abbrev pub Saw : Bytes → Result Error S × Bytes → Bytes → Type 0
  Saw text r rest = (acc : S) × (r ≡ (ok acc, rest)) × P text acc

  chunk-round :
      (f n : ℕ) (chunk rest : Bytes) (acc acc' : S)
      → (n == 0) ≡ false
      → next_size fn n ≡ length chunk
      → fn acc (some chunk) ≡ ok acc'
      → read_chunks fn (suc f) n acc (chunk ++ rest) ≡ read_chunks fn f (n - length chunk) acc' rest
  unfolding read_chunks
  chunk-round f n chunk rest acc acc' some_left size step =
      rw (some_left, size, read_full-append chunk rest, step)

  -- The same at a text that the chunk begins.
  text-round :
      (f : ℕ) (text chunk later rest : Bytes) (acc acc' : S)
      → chunk ++ later ≡ text
      → 0 < length text
      → next_size fn (length text) ≡ length chunk
      → fn acc (some chunk) ≡ ok acc'
      → read_chunks fn (suc f) (length text) acc (text ++ rest)
        ≡ read_chunks fn f (length later) acc' (later ++ rest)
  text-round f text chunk later rest acc acc' e some_left size step =
      let left : length text - length chunk ≡ length later =
        rw (← e) (omega (arith, length-append chunk later)) in
      let bytes : text ++ rest ≡ chunk ++ (later ++ rest) =
        rw (← e) (append_assoc chunk later rest) in
      rw bytes (
        chunk-round f (length text) chunk (later ++ rest) acc acc' (ground arith) size step
        ∙ ap (λ m. read_chunks fn f m acc' (later ++ rest)) left)

  next_size-bounds :
      (n : ℕ) → 0 < n → (0 < next_size fn n) × (next_size fn n ≤ n) × (next_size fn n ≤ chunk_size)
  next_size-bounds n h = ground arith

  read_chunks-Saw :
      (f : ℕ) (seen payload rest : Bytes) (acc : S)
      → length payload ≤ f
      → P seen acc
      → Saw (seen ++ payload) (read_chunks fn f (length payload) acc (payload ++ rest)) rest
  read_chunks-Saw f seen [] rest acc h p = (acc, stop f, rw append-nil p)
    where
      stop : (f : ℕ) → read_chunks fn f 0 acc rest ≡ (ok acc, rest)
      stop zero = unfold read_chunks in refl
      stop (suc f) = unfold read_chunks in refl
  read_chunks-Saw zero seen (c ∷ payload) rest acc h p = absurd (omega arith)
  read_chunks-Saw (suc f) seen (c ∷ payload) rest acc h p =
      let n = length (c ∷ payload) in
      let k = next_size fn n in
      let (positive, within, small) = next_size-bounds n (omega arith) in
      let chunk = take k (c ∷ payload) in
      let later = drop k (c ∷ payload) in
      let size : length chunk ≡ k = length-take k (c ∷ payload) within in
      let left : length later ≡ n - k = length-drop k (c ∷ payload) in
      let whole : chunk ++ later ≡ c ∷ payload = take-append-drop k (c ∷ payload) in
      let (acc', step, q) = keep seen chunk acc p (rw size small) in
      let (end, r, saw) = read_chunks-Saw f (seen ++ chunk) later rest acc' (omega arith) q in
      let run : read_chunks fn (suc f) n acc ((c ∷ payload) ++ rest)
          ≡ read_chunks fn f (length later) acc' (later ++ rest) =
        text-round f (c ∷ payload) chunk later rest acc acc' whole (omega arith) (sym size) step in
      let seen_all : (seen ++ chunk) ++ later ≡ seen ++ (c ∷ payload) =
        append_assoc seen chunk later ∙ ap (λ t. seen ++ t) whole in
      (end, run ∙ r, subst (λ t. P t end) seen_all saw)

  stream_bulk-Saw :
      (terminator : Stream Error (Unit {0})) (payload end rest : Bytes) (acc : S)
      → length payload ≤ max_bulk_size
      → P [] acc
      → terminator (end ++ rest) ≡ (ok tt, rest)
      → Saw payload
          (stream_bulk fn terminator acc b'$'
            (decimal (length payload) ++ (crlf_bytes ++ (payload ++ (end ++ rest)))))
          rest
  unfolding stream_bulk
  stream_bulk-Saw terminator payload end rest acc h p t =
      let (acc', run, saw) =
        read_chunks-Saw (length payload) [] payload (end ++ rest) acc (omega arith) p in
      (
        acc',
        rw (read_bulk_length-append (length payload) (payload ++ (end ++ rest)) h, run, t),
        saw,
      )

  -- `ReadBulkStringForReplication` on a payload of at most 1 GiB, with no CRLF behind it: where the
  -- callback accepts every chunk of at most the chunk size, it sees the payload whole and in order, and
  -- what follows stays in the stream.
  pub replication-Saw :
      (payload rest : Bytes) (acc : S)
      → length payload ≤ max_bulk_size
      → P [] acc
      → Saw payload
          (read_bulk_string_for_replication fn acc
            (b'$' ∷ (decimal (length payload) ++ (crlf_bytes ++ (payload ++ rest)))))
          rest
  unfolding read_bulk_string_for_replication read_byte
  replication-Saw payload rest acc h p = stream_bulk-Saw (pure tt) payload [] rest acc h p refl

  -- `ReadBulkString` on a payload of at most 1 GiB with the CRLF behind it: where the callback accepts
  -- every chunk of at most the chunk size, it sees the payload whole and in order, and what follows
  -- the CRLF stays in the stream.
  pub chunks-Saw :
      (payload rest : Bytes) (acc : S)
      → length payload ≤ max_bulk_size
      → P [] acc
      → Saw payload
          (read_bulk_string_chunks fn acc (
            b'$' ∷ (decimal (length payload) ++ (crlf_bytes ++ (payload ++ (crlf_bytes ++ rest))))))
          rest
  unfolding read_bulk_string_chunks read_byte
  chunks-Saw payload rest acc h p =
      stream_bulk-Saw expect_crlf payload crlf_bytes rest acc h p (expect_crlf-append rest)
