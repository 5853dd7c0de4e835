-- ===== src/Stream.antt =====
-- The buffered byte streams that the protocol reader and the RDB parser read (`bufio.Reader` over a
-- connection, `io.ReadFull`, `binary.Read`). A stream is the bytes that are still to come, after
-- which the connection is at its end. An operation returns its result and the bytes it leaves, also
-- beside an error, since the caller may go on reading.
pub mod Consume
pub mod Gives
pub mod Invert
use redis_inmemory_replica.Base.{
  ℕ, ◌-◌, ◌≡◌, refl, List, [], ◌∷◌, Bytes, Result, ok, err, length, take, drop, ltb, leb, ◌==◌,
  if◌then◌else◌,
}

abbrev pub Stream : Type 0 → Type 0 → Type 0
Stream E A = Bytes → Result E A × Bytes

-- `io.EOF` and `io.ErrUnexpectedEOF`.
pub data IoError : Type 0 where
  eof unexpected_eof : IoError

module _ {E A : Type 0} where
  abbrev pub pure : A → Stream E A
  pure a s = (ok a, s)

  abbrev pub fail : E → Stream E A
  fail e s = (err e, s)

  abbrev pub lift : Result E A → Stream E A
  lift r s = (r, s)

module _ {E A B : Type 0} where
  abbrev pub continue : Result E A × Bytes → (A → Stream E B) → Result E B × Bytes
  continue (ok a, s) f = f a s
  continue (err e, s) f = (err e, s)

  infixl 5 ◌>>=◌ ◌>>◌
  abbrev pub ◌>>=◌ : Stream E A → (A → Stream E B) → Stream E B
  ◌>>=◌ m f s = continue (m s) f

  abbrev pub ◌>>◌ : Stream E A → Stream E B → Stream E B
  m >> n = m >>= λ _. n

module _ {E F A : Type 0} where
  abbrev pub rename : (E → F) → Result E A × Bytes → Result F A × Bytes
  rename f (ok a, s) = (ok a, s)
  rename f (err e, s) = (err (f e), s)

  -- `fmt.Errorf("…: %w", err)` around an operation.
  abbrev pub map_err : (E → F) → Stream E A → Stream F A
  map_err f m s = rename f (m s)

-- `br.ReadByte()`
unfoldable pub read_byte : Stream IoError ℕ
read_byte [] = (err eof, [])
read_byte (c ∷ s) = (ok c, s)

abbrev pub prepend : ℕ → Result IoError Bytes × Bytes → Result IoError Bytes × Bytes
prepend c (ok line, s) = (ok (c ∷ line), s)
prepend c (err e, s) = (err e, s)

-- `br.ReadBytes(delim)`: up to and with the first delimiter.
unfoldable pub read_bytes : ℕ → Stream IoError Bytes
read_bytes delim [] = (err eof, [])
read_bytes delim (c ∷ s) =
    let rest = prepend c (read_bytes delim s) in if c == delim then (ok (c ∷ []), s) else rest

-- `io.ReadFull` into a buffer of `n` bytes. What a short read took is lost to the stream.
unfoldable pub read_full : ℕ → Stream IoError Bytes
read_full n s =
    if leb n (length s)
    then (ok (take n s), drop n s)
    else (err (if length s == 0 then eof else unexpected_eof), [])

-- `br.Discard(n)`
unfoldable pub discard : ℕ → Stream IoError (Unit {0})
discard n s = if leb n (length s) then (ok tt, drop n s) else (err eof, [])
