-- ===== src/Protocol/Reader.antt =====
-- protocol/reader.go. The reader is the stream that it reads; the scratch buffer is never used. The
-- errors are data that carry what the source formats into their texts. `ReadNext` and `Skip` call
-- themselves for the elements of an array: the model takes fuel, one round for each level, which
-- the entry points set above the length of the stream.
pub mod Lines
pub mod Sound
pub mod Total
pub mod Fuel
use redis_inmemory_replica.Base.{
  ℕ, zero, suc, ◌+◌, ◌-◌, ◌*◌, ◌^◌, Bool, true, false, ◌&&◌, ◌||◌, [], ◌∷◌, Bytes, Result, ok, err,
  ℤ, pos, negsuc, length, take, drop, bytes_eq, get_elem?, Option, none, some, ltb, leb, ◌==◌,
  if◌then◌else◌,
}
use redis_inmemory_replica.Stream.{
  Stream, IoError, eof, unexpected_eof, pure, fail, lift, ◌>>=◌, ◌>>◌, continue, map_err, read_byte,
  read_bytes, read_full, discard,
}
use redis_inmemory_replica.Protocol.Types.{
  Value, Values, value, nil, cons, type_simple_string, type_error, type_integer, type_bulk_string,
  type_array,
}
use redis_inmemory_replica.Protocol.Integer.{ParseError, parse_int64}

abbrev pub cr : ℕ
cr = 13

abbrev pub lf : ℕ
lf = 10

abbrev pub crlf_bytes : Bytes
crlf_bytes = cr ∷ lf ∷ []

abbrev pub max_bulk_size : ℕ
max_bulk_size = 1024 * 1024 * 1024

abbrev pub max_array_size : ℕ
max_array_size = 1024 * 1024

abbrev pub chunk_size : ℕ
chunk_size = 8192

-- `out_of_fuel` belongs to the model only.
pub data Error : Type 0 where
  io : IoError → Error
  read_line_failed : IoError → Error
  line_too_short : ℕ → Error
  missing_crlf : Bytes → Error
  read_crlf_failed : IoError → Error
  expected_crlf : Bytes → Error
  unknown_type : ℕ → Error
  invalid_integer : Bytes → Error
  invalid_bulk_text invalid_array_text : Bytes → Error
  invalid_bulk_length invalid_array_length : ℤ → Error
  expected_bulk_string : ℕ → Error
  out_of_fuel : Error

-- `bytes.HasSuffix`
unfoldable pub has_suffix : Bytes → Bytes → Bool
unfolding bytes_eq
has_suffix s suffix =
    leb (length suffix) (length s) && bytes_eq (drop (length s - length suffix) s) suffix

unfoldable pub check_line : Bytes → Result Error Bytes
unfolding has_suffix
check_line line =
    if ltb (length line) 2
    then err (line_too_short (length line))
    else if has_suffix line crlf_bytes
    then ok (take (length line - 2) line)
    else err (missing_crlf (drop (length line - 2) line))

unfoldable pub read_line : Stream Error Bytes
unfolding check_line read_bytes
read_line = do line ← map_err read_line_failed (read_bytes lf); lift (check_line line)

abbrev pub check_crlf : Bytes → Result Error (Unit {0})
check_crlf crlf = if bytes_eq crlf crlf_bytes then ok tt else err (expected_crlf crlf)

unfoldable pub expect_crlf : Stream Error (Unit {0})
unfolding read_full bytes_eq
expect_crlf = do crlf ← map_err read_crlf_failed (read_full 2); lift (check_crlf crlf)

abbrev pub parsed : {A : Type 0} → Error → Result ParseError A → Result Error A
parsed e (ok n) = ok n
parsed e (err _) = err e

unfoldable pub read_simple_string : Stream Error Value
unfolding read_line
read_simple_string = do line ← read_line; pure (value type_simple_string line (pos 0) nil false)

unfoldable pub read_error : Stream Error Value
unfolding read_line
read_error = do line ← read_line; pure (value type_error line (pos 0) nil false)

unfoldable pub read_integer : Stream Error Value
unfolding read_line parse_int64
read_integer = do
  line ← read_line
  n ← lift (parsed (invalid_integer line) (parse_int64 line))
  pure (value type_integer [] n nil false)

-- What a length line says: the null value (-1), or a length that the limit allows.
abbrev pub check_length : ℕ → (ℤ → Error) → ℤ → Result Error (Option ℕ)
check_length limit e (negsuc zero) = ok none
check_length limit e (negsuc (suc n)) = err (e (negsuc (suc n)))
check_length limit e (pos n) = if ltb limit n then err (e (pos n)) else ok (some n)

-- The start that `readBulkString`, the two `ReadBulkString…` and `Skip` share.
unfoldable pub read_bulk_length : Stream Error (Option ℕ)
unfolding read_line parse_int64
read_bulk_length = do
  line ← read_line
  n ← lift (parsed (invalid_bulk_text line) (parse_int64 line))
  lift (check_length max_bulk_size invalid_bulk_length n)

unfoldable pub read_array_length : Stream Error (Option ℕ)
unfolding read_line parse_int64
read_array_length = do
  line ← read_line
  n ← lift (parsed (invalid_array_text line) (parse_int64 line))
  lift (check_length max_array_size invalid_array_length n)

abbrev pub bulk_data : Option ℕ → Stream Error Value
bulk_data none = pure (value type_bulk_string [] (pos 0) nil true)
bulk_data (some n) = do
  bytes ← map_err io (read_full n)
  expect_crlf
  pure (value type_bulk_string bytes (pos 0) nil false)

unfoldable pub read_bulk_string : Stream Error Value
unfolding read_bulk_length expect_crlf
read_bulk_string = do n ← read_bulk_length; bulk_data n

-- The loop of `readArray`, over the reader of one element.
unfoldable pub read_elements : Stream Error Value → ℕ → Stream Error Values
read_elements next zero = pure nil
read_elements next (suc n) = do v ← next; vs ← read_elements next n; pure (cons v vs)

abbrev pub array_data : Stream Error Value → Option ℕ → Stream Error Value
array_data next none = pure (value type_array [] (pos 0) nil true)
array_data next (some n) = do vs ← read_elements next n; pure (value type_array [] (pos 0) vs false)

unfoldable pub read_array : Stream Error Value → Stream Error Value
unfolding read_array_length read_elements
read_array next = do n ← read_array_length; array_data next n

-- The `switch` on the type byte.
unfoldable pub dispatch : Stream Error Value → ℕ → Stream Error Value
unfolding read_simple_string read_error read_integer read_bulk_string read_array
dispatch next c =
    if c == type_simple_string
    then read_simple_string
    else if c == type_error
    then read_error
    else if c == type_integer
    then read_integer
    else if c == type_bulk_string
    then read_bulk_string
    else if c == type_array
    then read_array next
    else fail (unknown_type c)

unfoldable pub read_value : ℕ → Stream Error Value
unfolding dispatch read_byte
read_value zero = fail out_of_fuel
read_value (suc f) = do c ← map_err io read_byte; dispatch (read_value f) c

unfoldable pub read_next : Stream Error Value
unfolding read_value
read_next s = read_value (suc (length s)) s
