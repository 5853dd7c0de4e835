-- ===== src/Server/Replies.antt =====
-- The response writers of server/server.go. Every one of them writes a whole reply.
use redis_inmemory_replica.Base.{
  ℕ, ◌+◌, true, false, [], ◌++◌, Bytes, map, Option, none, some, ℤ, pos, ◌==◌, if◌then◌else◌,
}
use redis_inmemory_replica.Protocol.Types.{Values, value, type_array}
use redis_inmemory_replica.Protocol.Writer.{
  write_simple_string, write_integer, write_bulk_string, write_null_bulk_string, write_value,
}
use redis_inmemory_replica.Protocol.Writer
use redis_inmemory_replica.Server.{Session, Act}
use redis_inmemory_replica.Server.Items.{Item, Items, texts, flat, convert_values}

-- A line feed or a carriage return becomes a space.
abbrev pub clean_byte : ℕ → ℕ
clean_byte c = if c == 10 then b' ' else if c == 13 then b' ' else c

abbrev pub clean : Bytes → Bytes
clean = map clean_byte

module _ {L : Type 0} where
  abbrev pub send : Bytes → Session L → Session L
  send bytes c = record c { sent = c.sent ++ bytes }

  -- `writeString`
  unfoldable pub reply_string : Bytes → Act L
  unfolding write_simple_string
  reply_string s c = some (send (write_simple_string s) c)

  -- `writeError`
  unfoldable pub reply_error : Bytes → Act L
  unfolding Writer.write_error
  reply_error s c = some (
      send (Writer.write_error (clean s))
        (record c { server = record (c.server) { error_count = c.server.error_count + 1 } }))

  -- `writeBulkString`
  unfoldable pub reply_bulk : Bytes → Act L
  unfolding write_bulk_string
  reply_bulk bytes c = some (send (write_bulk_string bytes) c)

  -- `writeNull`
  unfoldable pub reply_null : Act L
  unfolding write_null_bulk_string
  reply_null c = some (send write_null_bulk_string c)

  -- `writeInteger`
  unfoldable pub reply_integer : ℤ → Act L
  unfolding write_integer
  reply_integer n c = some (send (write_integer n) c)

  abbrev pub send_written : Option Bytes → Session L → Session L
  send_written none c = c
  send_written (some bytes) c = send bytes c

  abbrev pub reply_values : Values → Act L
  reply_values vs c = some (send_written (write_value (value type_array [] (pos 0) vs false)) c)

  module _ (print : Item → Bytes) where
    -- `writeArray`
    unfoldable pub reply_array : Items → Act L
    unfolding convert_values write_value
    reply_array is = reply_values (convert_values print is)

    -- `writeResult`, where `print_float` is `%.17g`.
    unfoldable pub write_result : (ℕ → Bytes) → Item → Act L
    unfolding reply_null reply_integer reply_bulk reply_array
    write_result print_float Item.null = reply_null
    write_result print_float (Item.flag true) = reply_integer (pos 1)
    write_result print_float (Item.flag false) = reply_null
    write_result print_float (Item.text s) = reply_bulk s
    write_result print_float (Item.int n) = reply_integer n
    write_result print_float (Item.float w) = reply_bulk (print_float w)
    write_result print_float (Item.list is) = reply_array is
    write_result print_float (Item.strings ss) = reply_array (texts ss)
    write_result print_float (Item.fields ps) = reply_array (flat ps)
    write_result print_float (Item.slice b) = reply_bulk (print (Item.slice b))
