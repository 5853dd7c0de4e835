-- ===== src/Protocol/Writer.antt =====
-- protocol/writer.go. A write appends to what the buffered writer will send, so a function of the
-- model returns the bytes that it writes; the errors of the connection are not modelled, and
-- `none` is the error for a value type that cannot be written.
use redis_inmemory_replica.Base.{
  ℕ, ◌+◌, List, [], ◌∷◌, ◌++◌, Bytes, codes, ℤ, length, Option, none, some, ◌==◌, if◌then◌else◌,
}
use redis_inmemory_replica.Protocol.Types.{
  Value, Values, value, nil, cons, count_values, type_simple_string, type_error, type_integer,
  type_bulk_string, type_array,
}
use redis_inmemory_replica.Protocol.Integer.{decimal, format_int}
use redis_inmemory_replica.Protocol.Reader.{crlf_bytes}

unfoldable pub write_simple_string : Bytes → Bytes
write_simple_string s = b'+' ∷ (s ++ crlf_bytes)

unfoldable pub write_error : Bytes → Bytes
write_error msg = b'-' ∷ (msg ++ crlf_bytes)

unfoldable pub write_integer : ℤ → Bytes
unfolding format_int
write_integer n = b':' ∷ (format_int n ++ crlf_bytes)

unfoldable pub write_bulk_string : Bytes → Bytes
unfolding decimal
write_bulk_string bytes = b'$' ∷ (decimal (length bytes) ++ (crlf_bytes ++ (bytes ++ crlf_bytes)))

unfoldable pub write_null_bulk_string : Bytes
write_null_bulk_string = codes "$-1" ++ crlf_bytes

unfoldable pub write_null_array : Bytes
write_null_array = codes "*-1" ++ crlf_bytes

abbrev pub array_header : ℕ → Bytes
array_header n = b'*' ∷ (decimal n ++ crlf_bytes)

abbrev pub then_write : Option Bytes → Option Bytes → Option Bytes
then_write none w = none
then_write (some b) none = none
then_write (some b) (some c) = some (b ++ c)

-- `WriteValue` and `WriteArray`. What was buffered before an error stays in the buffer and is not
-- shown here.
unfoldable mutual
  unfolding write_simple_string write_error write_integer write_bulk_string write_null_bulk_string
      write_null_array decimal

  pub write_value : Value → Option Bytes
  write_value (value t bytes n vs null) =
      if t == type_simple_string
      then some (write_simple_string bytes)
      else if t == type_error
      then some (write_error bytes)
      else if t == type_integer
      then some (write_integer n)
      else if t == type_bulk_string
      then some (if null then write_null_bulk_string else write_bulk_string bytes)
      else if t == type_array
      then (if null
          then some write_null_array
          else then_write (some (array_header (count_values vs))) (write_values vs))
      else none

  pub write_values : Values → Option Bytes
  write_values nil = some []
  write_values (cons v vs) = then_write (write_value v) (write_values vs)

abbrev pub write_args : List Bytes → Bytes
write_args [] = []
write_args (a ∷ args) = write_bulk_string a ++ write_args args

-- `WriteCommand(cmd, args...)`
unfoldable pub write_command : Bytes → List Bytes → Bytes
unfolding write_bulk_string decimal
write_command cmd args =
    array_header (1 + length args) ++ (write_bulk_string cmd ++ write_args args)

unfoldable pub write_ok : Bytes
unfolding write_simple_string
write_ok = write_simple_string (codes "OK")

unfoldable pub write_pong : Bytes
unfolding write_simple_string
write_pong = write_simple_string (codes "PONG")
