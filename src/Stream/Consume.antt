-- ===== src/Stream/Consume.antt =====
-- How much of the stream the operations take.
use redis_inmemory_replica.Base.{
  ℕ, ◌≤◌, ◌≡◌, ◌≢◌, refl, [], ◌∷◌, ◌++◌, Bytes, Result, ok, err, length, length-append, length-drop,
  take-append, drop-append, All, arith,
}
use redis_inmemory_replica.Stream.{
  Stream, IoError, ◌>>=◌, continue, rename, map_err, read_byte, prepend, read_bytes, read_full,
  discard,
}

module _ {E A : Type 0} where
  -- The operation never leaves more bytes than it found.
  pub record Shrinks (m : Stream E A) : Type 0 where
    pub at : (s : Bytes) → length (m s).1 ≤ length s

module _ {E A B : Type 0} where
  continue-Shrinks :
      (n : ℕ) (r : Result E A × Bytes) (f : A → Stream E B)
      → length r.1 ≤ n
      → ((a : A) → Shrinks (f a))
      → length (continue r f).1 ≤ n
  continue-Shrinks n (ok a, s) f h k = omega (arith, (k a).at s)
  continue-Shrinks n (err e, s) f h k = h

  pub Shrinks-bind :
      (m : Stream E A) (f : A → Stream E B)
      → Shrinks m
      → ((a : A) → Shrinks (f a))
      → Shrinks (m >>= f)
  Shrinks-bind m f hm hf = record { at = λ s. continue-Shrinks (length s) (m s) f (hm.at s) hf }

module _ {E F A : Type 0} where
  rename-shrinks :
      (n : ℕ) (f : E → F) (r : Result E A × Bytes) → length r.1 ≤ n → length (rename f r).1 ≤ n
  rename-shrinks n f (ok a, s) h = h
  rename-shrinks n f (err e, s) h = h

  pub Shrinks-map_err : (f : E → F) (m : Stream E A) → Shrinks m → Shrinks (map_err f m)
  Shrinks-map_err f m h = record { at = λ s. rename-shrinks (length s) f (m s) (h.at s) }

pub Shrinks-read_byte : Shrinks read_byte
unfolding read_byte
Shrinks-read_byte = record { at = go }
  where
    go : (s : Bytes) → length (read_byte s).1 ≤ length s
    go [] = omega arith
    go (c ∷ s) = omega arith

prepend-rest : (c : ℕ) (r : Result IoError Bytes × Bytes) → (prepend c r).1 ≡ r.1
prepend-rest c (ok line, s) = refl
prepend-rest c (err e, s) = refl

read_bytes-le : (d : ℕ) (s : Bytes) → length (read_bytes d s).1 ≤ length s
unfolding read_bytes
read_bytes-le d [] = omega arith
read_bytes-le d (c ∷ s) = ground (arith, read_bytes-le d s, prepend-rest c (read_bytes d s))

pub Shrinks-read_bytes : (d : ℕ) → Shrinks (read_bytes d)
Shrinks-read_bytes d = record { at = read_bytes-le d }

pub Shrinks-read_full : (n : ℕ) → Shrinks (read_full n)
unfolding read_full
Shrinks-read_full n = record { at = λ s. ground (arith, length-drop n s) }

pub Shrinks-discard : (n : ℕ) → Shrinks (discard n)
unfolding discard
Shrinks-discard n = record { at = λ s. ground (arith, length-drop n s) }

-- A line without the delimiter is read up to the delimiter.
pub read_bytes-append :
    (d : ℕ) (line rest : Bytes)
    → All (λ c. c ≢ d) line
    → read_bytes d (line ++ d ∷ rest) ≡ (ok (line ++ d ∷ []), rest)
unfolding read_bytes
read_bytes-append d [] rest h = ground arith
read_bytes-append d (c ∷ line) rest h = ground (arith, h.0, read_bytes-append d line rest h.1)

-- A buffer that the stream fills takes exactly its length.
pub read_full-append :
    (bytes rest : Bytes) → read_full (length bytes) (bytes ++ rest) ≡ (ok bytes, rest)
unfolding read_full
read_full-append bytes rest =
    ground (arith, length-append bytes rest, take-append bytes rest, drop-append bytes rest)

pub discard-append : (bytes rest : Bytes) → discard (length bytes) (bytes ++ rest) ≡ (ok tt, rest)
unfolding discard
discard-append bytes rest = ground (arith, length-append bytes rest, drop-append bytes rest)
