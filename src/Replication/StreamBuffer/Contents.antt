-- ===== src/Replication/StreamBuffer/Contents.antt =====
-- The buffer reads its chunks one after the other, whatever their sizes and those of the reads.
use mathlib.Core.List.{append_assoc, append-nil}
use redis_inmemory_replica.Base.{
  ℕ, zero, suc, ◌+◌, ◌-◌, ◌≤◌, ◌<◌, ◌≡◌, refl, sym, ap, ◌∙◌, true, false, inl, inr, List, [], ◌∷◌,
  ◌++◌, Bytes, Option, none, some, length, take, drop, get_elem?, arith, leb, ◌==◌, Bool-cases,
  Option-cases, length-drop, ◌⊎◌,
}
use redis_inmemory_replica.Replication.StreamBuffer.{
  StreamBuffer, next_chunk, advanced, to_copy, Copying, copy_from, round, continue_copy,
  copy_chunks, read_result, at_end, read,
}
use redis_inmemory_replica.Replication.StreamBuffer.Pieces.{
  concat, remaining, rest_of, take-nil, drop-nil, take-sum, drop-sum, take-append_le,
  drop-append_le, drop_all, drop-no_chunk, chunk-lt, remaining-chunk, remaining-next_chunk,
}

-- A call of the loop copies what is asked for, as far as there is any, and leaves the rest.
abbrev Copies : ℕ → Bytes → StreamBuffer → Option (Bytes × StreamBuffer) → Type 0
Copies want copied b o =
    (b' : StreamBuffer) × (o ≡ some (copied ++ take want (remaining b), b'))
    × (remaining b' ≡ drop want (remaining b))

stopped :
    (want : ℕ) (copied : Bytes) (b : StreamBuffer)
    → take want (remaining b) ≡ []
    → drop want (remaining b) ≡ remaining b
    → Copies want copied b (some (copied, b))
stopped want copied b p q = (b, rw (p, append-nil) refl, sym q)

-- What is still to do: bytes to copy, and chunks.
abbrev pub work : ℕ → StreamBuffer → ℕ
work want b = want + (length b.chunks - b.chunk_idx)

chunk-Copies :
    (f want : ℕ) (copied : Bytes) (b : StreamBuffer) (c : Bytes)
    → get_elem? b.chunks b.chunk_idx ≡ some c
    → (want == 0) ≡ false
    → work want b ≤ f
    → ((w : ℕ) (k : Bytes) (d : StreamBuffer) → work w d < f → Copies w k d (copy_chunks f w k d))
    → (r : Copying) → r ≡ copy_from want copied b c
    → Copies want copied b (copy_chunks f r.0 r.1 r.2)
chunk-Copies f want copied b c h positive room again r same =
    elim (Bool-cases (leb (length c) b.chunk_pos)) [
      | inl over ↦
          let e : r ≡ (want, copied, next_chunk b) = rw over at same in
          let skip : remaining (next_chunk b) ≡ remaining b =
            remaining-next_chunk b
            ∙ sym (
                remaining-chunk b c h
                ∙ ap (λ u. u ++ concat (drop (suc b.chunk_idx) b.chunks))
                    (drop_all b.chunk_pos c (ground arith))) in
          let (b', run, left) =
            again want copied (next_chunk b) (omega (arith, chunk-lt b.chunks b.chunk_idx c h)) in
          (
            b',
            rw e (run ∙ ap (λ u. some (copied ++ take want u, b')) skip),
            left ∙ ap (drop want) skip,
          )
      | inr within ↦
          let n = to_copy want c b.chunk_pos in
          let xs = drop b.chunk_pos c in
          let cs = concat (drop (suc b.chunk_idx) b.chunks) in
          let e : r ≡ (want - n, copied ++ take n xs, advanced n b) = rw within at same in
          let size : length xs ≡ length c - b.chunk_pos = length-drop b.chunk_pos c in
          let fits : n ≤ length xs = ground arith in
          let some_byte : 0 < n = ground arith in
          let sum : want ≡ n + (want - n) = ground arith in
          let whole : remaining b ≡ xs ++ cs = remaining-chunk b c h in
          let rest : remaining (advanced n b) ≡ drop n (remaining b) =
            remaining-chunk (advanced n b) c h
            ∙ ap (λ u. u ++ cs) (drop-sum (b.chunk_pos + n) b.chunk_pos n c refl)
            ∙ sym (drop-append_le n xs cs fits)
            ∙ ap (drop n) (sym whole) in
          let taken : take n (remaining b) ≡ take n xs =
            ap (take n) whole ∙ take-append_le n xs cs fits in
          let (b', run, left) =
            again (want - n) (copied ++ take n xs) (advanced n b)
              (omega (arith, chunk-lt b.chunks b.chunk_idx c h)) in
          let joined : (copied ++ take n xs) ++ take (want - n) (drop n (remaining b))
              ≡ copied ++ take want (remaining b) =
            append_assoc copied (take n xs) (take (want - n) (drop n (remaining b)))
            ∙ ap (λ u. copied ++ (u ++ take (want - n) (drop n (remaining b)))) (sym taken)
            ∙ ap (λ u. copied ++ u) (sym (take-sum want n (want - n) (remaining b) sum)) in
          (
            b',
            rw e (
                run
                ∙ ap (λ u. some ((copied ++ take n xs) ++ take (want - n) u, b')) rest
                ∙ ap (λ u. some (u, b')) joined),
            left ∙ ap (drop (want - n)) rest ∙ sym (drop-sum want n (want - n) (remaining b) sum),
          )
    ]

round_full :
    (want : ℕ) (copied : Bytes) (b : StreamBuffer) → (want == 0) ≡ true → round want copied b ≡ none
unfolding round
round_full want copied b h = rw h refl

round_over :
    (want : ℕ) (copied : Bytes) (b : StreamBuffer)
    → (want == 0) ≡ false
    → get_elem? b.chunks b.chunk_idx ≡ none
    → round want copied b ≡ none
unfolding round
round_over want copied b h e = rw (h, e) refl

round_chunk :
    (want : ℕ) (copied : Bytes) (b : StreamBuffer) (c : Bytes)
    → (want == 0) ≡ false
    → get_elem? b.chunks b.chunk_idx ≡ some c
    → round want copied b ≡ some (copy_from want copied b c)
unfolding round
round_chunk want copied b c h e = rw (h, e) refl

copy_chunks-round :
    (f want : ℕ) (copied : Bytes) (b : StreamBuffer) (o : Option Copying)
    → round want copied b ≡ o
    → copy_chunks (suc f) want copied b ≡ continue_copy (copy_chunks f) copied b o
unfolding copy_chunks
copy_chunks-round f want copied b o e = ap (continue_copy (copy_chunks f) copied b) e

copy_chunks-Copies :
    (f want : ℕ) (copied : Bytes) (b : StreamBuffer)
    → work want b < f
    → Copies want copied b (copy_chunks f want copied b)
copy_chunks-Copies zero want copied b h = absurd (omega arith)
copy_chunks-Copies (suc f) want copied b h =
    one (copy_chunks-Copies f) (Bool-cases (want == 0))
      (Option-cases (get_elem? b.chunks b.chunk_idx))
  where
    one :
        ((w : ℕ) (k : Bytes) (d : StreamBuffer) → work w d < f → Copies w k d (copy_chunks f w k d))
        → ((want == 0) ≡ true) ⊎ ((want == 0) ≡ false)
        → (get_elem? b.chunks b.chunk_idx ≡ none)
          ⊎ ((c : Bytes) × (get_elem? b.chunks b.chunk_idx ≡ some c))
        → Copies want copied b (copy_chunks (suc f) want copied b)
    one again (inl empty) chunk =
        let e : want ≡ 0 = ground arith in
        rw (copy_chunks-round f want copied b none (round_full want copied b empty)) (
          stopped want copied b (ap (λ n. take n (remaining b)) e)
            (ap (λ n. drop n (remaining b)) e))
    one again (inr positive) (inl e) =
        let gone : remaining b ≡ [] =
          ap (λ l. rest_of l b.chunk_pos) (drop-no_chunk b.chunks b.chunk_idx e) in
        rw (copy_chunks-round f want copied b none (round_over want copied b positive e)) (
          stopped want copied b (ap (take want) gone ∙ take-nil want)
            (ap (drop want) gone ∙ drop-nil want ∙ sym gone))
    one again (inr positive) (inr (c, e)) =
        rw (copy_chunks-round f want copied b _ (round_chunk want copied b c positive e)) (
          chunk-Copies f want copied b c e positive (omega arith) again (copy_from want copied b c)
            refl)

-- What a read returns: the bytes, or the end of the file where there are none.
abbrev pub or_eof : Bytes → Option Bytes
or_eof [] = none
or_eof (c ∷ bytes) = some (c ∷ bytes)

read_result-some :
    (bytes : Bytes) (b : StreamBuffer) → read_result (some (bytes, b)) ≡ some (or_eof bytes, b)
read_result-some [] b = refl
read_result-some (c ∷ bytes) b = refl

drop-end : (cs : List Bytes) (i : ℕ) → length cs ≤ i → drop i cs ≡ []
drop-end [] zero h = refl
drop-end [] (suc i) h = refl
drop-end (c ∷ cs) zero h = absurd (omega arith)
drop-end (c ∷ cs) (suc i) h = drop-end cs i (omega arith)

-- A read of any size returns the next bytes of the chunks, as many as were asked for or are left, or
-- the end of the file where none are, and leaves the rest of the bytes to be read.
pub read-remaining :
    (want : ℕ) (b : StreamBuffer)
    → (b' : StreamBuffer) × (read want b ≡ some (or_eof (take want (remaining b)), b'))
      × (remaining b' ≡ drop want (remaining b))
unfolding read
read-remaining want b = elim (Bool-cases (at_end b)) [
  | inl over ↦
      let gone : remaining b ≡ [] =
        ap (λ l. rest_of l b.chunk_pos) (drop-end b.chunks b.chunk_idx (ground arith)) in
      (
        b,
        rw over (ap (λ u. some (or_eof u, b)) (sym (ap (take want) gone ∙ take-nil want))),
        gone ∙ sym (ap (drop want) gone ∙ drop-nil want),
      )
  | inr within ↦
      let (b', run, left) =
        copy_chunks-Copies (suc (want + length b.chunks)) want [] b (omega arith) in
      (b', rw within (ap read_result run ∙ read_result-some (take want (remaining b)) b'), left)
]
