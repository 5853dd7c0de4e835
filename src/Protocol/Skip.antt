-- ===== src/Protocol/Skip.antt =====
-- `Skip` of protocol/reader.go: it passes over a value without building it.
pub mod Agree
use redis_inmemory_replica.Base.{
  ℕ, zero, suc, ◌+◌, ◌||◌, Option, none, some, Result, length, ◌==◌, if◌then◌else◌,
}
use redis_inmemory_replica.Stream.{Stream, pure, fail, ◌>>=◌, ◌>>◌, map_err, read_byte, discard}
use redis_inmemory_replica.Protocol.Types.{
  type_simple_string, type_error, type_integer, type_bulk_string, type_array,
}
use redis_inmemory_replica.Protocol.Reader.{
  Error, io, unknown_type, out_of_fuel, read_line, read_bulk_length, read_array_length,
}

unfoldable pub skip_line : Stream Error (Unit {0})
unfolding read_line
skip_line = do line ← read_line; pure tt

-- The data and the CRLF behind it are discarded unread.
abbrev pub skip_data : Option ℕ → Stream Error (Unit {0})
skip_data none = pure tt
skip_data (some n) = map_err io (discard (n + 2))

unfoldable pub skip_bulk : Stream Error (Unit {0})
unfolding read_bulk_length discard
skip_bulk = do n ← read_bulk_length; skip_data n

unfoldable pub skip_elements : Stream Error (Unit {0}) → ℕ → Stream Error (Unit {0})
skip_elements next zero = pure tt
skip_elements next (suc n) = do next; skip_elements next n

abbrev pub skip_items : Stream Error (Unit {0}) → Option ℕ → Stream Error (Unit {0})
skip_items next none = pure tt
skip_items next (some n) = skip_elements next n

unfoldable pub skip_array : Stream Error (Unit {0}) → Stream Error (Unit {0})
unfolding read_array_length skip_elements
skip_array next = do n ← read_array_length; skip_items next n

unfoldable pub skip_dispatch : Stream Error (Unit {0}) → ℕ → Stream Error (Unit {0})
unfolding skip_line skip_bulk skip_array
skip_dispatch next c =
    if c == type_simple_string || c == type_error
    then skip_line
    else if c == type_integer
    then skip_line
    else if c == type_bulk_string
    then skip_bulk
    else if c == type_array
    then skip_array next
    else fail (unknown_type c)

unfoldable pub skip_value : ℕ → Stream Error (Unit {0})
unfolding skip_dispatch read_byte
skip_value zero = fail out_of_fuel
skip_value (suc f) = do c ← map_err io read_byte; skip_dispatch (skip_value f) c

unfoldable pub skip : Stream Error (Unit {0})
unfolding skip_value
skip s = skip_value (suc (length s)) s
