-- ===== src/Replication/StreamBuffer/Drain.antt =====
-- The reader over the buffer.
use redis_inmemory_replica.Base.{
  ℕ, zero, suc, ◌+◌, ◌<◌, ◌≡◌, refl, sym, ap, ◌∙◌, [], ◌∷◌, ◌++◌, Bytes, Option, some, length, take,
  drop, arith, length-append, length-drop, take-append-drop,
}
use redis_inmemory_replica.Replication.StreamBuffer.{StreamBuffer, joined, drain}
use redis_inmemory_replica.Replication.StreamBuffer.Pieces.{remaining, take-nil}
use redis_inmemory_replica.Replication.StreamBuffer.Contents.{or_eof, read-remaining}

joined-bytes :
    (next : StreamBuffer → Option Bytes) (bytes later : Bytes) (b : StreamBuffer)
    → 0 < length bytes
    → next b ≡ some later
    → joined next (some (or_eof bytes, b)) ≡ some (bytes ++ later)
joined-bytes next [] later b h e = absurd (omega arith)
joined-bytes next (c ∷ bytes) later b h e = rw e refl

-- The reader over the buffer gets all that was left, where every read takes a byte at least.
pub drain-remaining :
    (f : ℕ) (b : StreamBuffer) → length (remaining b) < f → drain f b ≡ some (remaining b)
unfolding drain
drain-remaining zero b h = absurd (omega arith)
drain-remaining (suc f) b h =
    let (b', run, left) = read-remaining 4096 b in
    ap (joined (drain f)) run ∙ split (drain-remaining f) (remaining b) refl b' left
  where
    split :
        ((d : StreamBuffer) → length (remaining d) < f → drain f d ≡ some (remaining d))
        → (bytes : Bytes) → remaining b ≡ bytes
        → (b' : StreamBuffer) → remaining b' ≡ drop 4096 bytes
        → joined (drain f) (some (or_eof (take 4096 bytes), b')) ≡ some bytes
    split again [] e b' left = ap (λ u. joined (drain f) (some (or_eof u, b'))) (take-nil 4096)
    split again (c ∷ bytes) e b' left =
        let fewer : length (drop 4096 (c ∷ bytes)) < f =
          omega (arith, length-drop 4096 (c ∷ bytes), ap length e) in
        let later : drain f b' ≡ some (drop 4096 (c ∷ bytes)) =
          again b' (omega (arith, ap length left)) ∙ ap (λ u. some u) left in
        let whole : length (take 4096 (c ∷ bytes)) + length (drop 4096 (c ∷ bytes))
            ≡ suc (length bytes) =
          sym (length-append (take 4096 (c ∷ bytes)) (drop 4096 (c ∷ bytes)))
          ∙ ap length (take-append-drop 4096 (c ∷ bytes)) in
        let some_taken : 0 < length (take 4096 (c ∷ bytes)) =
          omega (arith, whole, length-drop 4096 (c ∷ bytes)) in
        joined-bytes (drain f) (take 4096 (c ∷ bytes)) (drop 4096 (c ∷ bytes)) b'
          (omega (arith, some_taken)) later
        ∙ ap (λ u. some u) (take-append-drop 4096 (c ∷ bytes))
