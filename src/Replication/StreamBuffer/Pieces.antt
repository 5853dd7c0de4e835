-- ===== src/Replication/StreamBuffer/Pieces.antt =====
-- The bytes that the buffer has left, as a list.
use redis_inmemory_replica.Base.{
  ℕ, zero, suc, ◌+◌, ◌≤◌, ◌<◌, ◌≡◌, refl, sym, ap, ◌∙◌, List, [], ◌∷◌, ◌++◌, Bytes, none, some,
  length, take, drop, get_elem?, arith,
}
use redis_inmemory_replica.Replication.StreamBuffer.{StreamBuffer, next_chunk}

abbrev pub concat : List Bytes → Bytes
concat [] = []
concat (c ∷ cs) = c ++ concat cs

abbrev pub rest_of : List Bytes → ℕ → Bytes
rest_of [] at = []
rest_of (c ∷ cs) at = drop at c ++ concat cs

-- The bytes that have not been read.
abbrev pub remaining : StreamBuffer → Bytes
remaining b = rest_of (drop b.chunk_idx b.chunks) b.chunk_pos

pub take-nil : (m : ℕ) → take {A = ℕ} m [] ≡ []
take-nil zero = refl
take-nil (suc m) = refl

pub drop-nil : (m : ℕ) → drop {A = ℕ} m [] ≡ []
drop-nil zero = refl
drop-nil (suc m) = refl

pub take-sum : (n k m : ℕ) (zs : Bytes) → n ≡ k + m → take n zs ≡ take k zs ++ take m (drop k zs)
take-sum n zero m zs h = let e : n ≡ m = omega arith in ap (λ i. take i zs) e
take-sum zero (suc k) m zs h = absurd (omega arith)
take-sum (suc n) (suc k) m [] h = sym (take-nil m)
take-sum (suc n) (suc k) m (z ∷ zs) h = ap (λ r. z ∷ r) (take-sum n k m zs (omega arith))

pub drop-sum : (n k m : ℕ) (zs : Bytes) → n ≡ k + m → drop n zs ≡ drop m (drop k zs)
drop-sum n zero m zs h = let e : n ≡ m = omega arith in ap (λ i. drop i zs) e
drop-sum zero (suc k) m zs h = absurd (omega arith)
drop-sum (suc n) (suc k) m [] h = sym (drop-nil m)
drop-sum (suc n) (suc k) m (z ∷ zs) h = drop-sum n k m zs (omega arith)

pub take-append_le : (k : ℕ) (xs ys : Bytes) → k ≤ length xs → take k (xs ++ ys) ≡ take k xs
take-append_le zero xs ys h = refl
take-append_le (suc k) [] ys h = absurd (omega arith)
take-append_le (suc k) (x ∷ xs) ys h = ap (λ r. x ∷ r) (take-append_le k xs ys (omega arith))

pub drop-append_le : (k : ℕ) (xs ys : Bytes) → k ≤ length xs → drop k (xs ++ ys) ≡ drop k xs ++ ys
drop-append_le zero xs ys h = refl
drop-append_le (suc k) [] ys h = absurd (omega arith)
drop-append_le (suc k) (x ∷ xs) ys h = drop-append_le k xs ys (omega arith)

pub drop_all : (k : ℕ) (xs : Bytes) → length xs ≤ k → drop k xs ≡ []
drop_all zero [] h = refl
drop_all zero (x ∷ xs) h = absurd (omega arith)
drop_all (suc k) [] h = refl
drop_all (suc k) (x ∷ xs) h = drop_all k xs (omega arith)

pub drop-chunk :
    (cs : List Bytes) (i : ℕ) (c : Bytes)
    → get_elem? cs i ≡ some c
    → drop i cs ≡ c ∷ drop (suc i) cs
drop-chunk [] i c h = cc
drop-chunk (d ∷ cs) zero c h = cc
drop-chunk (d ∷ cs) (suc i) c h = drop-chunk cs i c h

pub drop-no_chunk : (cs : List Bytes) (i : ℕ) → get_elem? cs i ≡ none → drop i cs ≡ []
drop-no_chunk [] zero h = refl
drop-no_chunk [] (suc i) h = refl
drop-no_chunk (d ∷ cs) zero h = cc
drop-no_chunk (d ∷ cs) (suc i) h = drop-no_chunk cs i h

pub chunk-lt : (cs : List Bytes) (i : ℕ) (c : Bytes) → get_elem? cs i ≡ some c → i < length cs
chunk-lt [] i c h = cc
chunk-lt (d ∷ cs) zero c h = omega arith
chunk-lt (d ∷ cs) (suc i) c h = omega (arith, chunk-lt cs i c h)

pub remaining-chunk :
    (b : StreamBuffer) (c : Bytes)
    → get_elem? b.chunks b.chunk_idx ≡ some c
    → remaining b ≡ drop b.chunk_pos c ++ concat (drop (suc b.chunk_idx) b.chunks)
remaining-chunk b c h = ap (λ l. rest_of l b.chunk_pos) (drop-chunk b.chunks b.chunk_idx c h)

pub rest_of-zero : (cs : List Bytes) → rest_of cs 0 ≡ concat cs
rest_of-zero [] = refl
rest_of-zero (c ∷ cs) = refl

pub remaining-next_chunk :
    (b : StreamBuffer) → remaining (next_chunk b) ≡ concat (drop (suc b.chunk_idx) b.chunks)
remaining-next_chunk b =
    let e : b.chunk_idx + 1 ≡ suc b.chunk_idx = omega arith in
    ap (λ i. rest_of (drop i b.chunks) 0) e ∙ rest_of-zero (drop (suc b.chunk_idx) b.chunks)
