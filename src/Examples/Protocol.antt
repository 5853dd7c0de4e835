-- ===== src/Examples/Protocol.antt =====
-- The theorems of the protocol at concrete inputs.
use redis_inmemory_replica.Base.{
  false, ℕ, ◌≡◌, ◌≤◌, ◌<◌, refl, ap, [], ◌∷◌, ◌++◌, Bytes, codes, Option, none, some, pos, negsuc,
  neg, Result, ok, arith, ◌^◌, ◌-◌, All,
}
use redis_inmemory_replica.Protocol.Types.{Value, value, nil, type_integer}
use redis_inmemory_replica.Protocol.Integer.{parse_int64, format_int, decimal}
use redis_inmemory_replica.Protocol.Integer.Exact.{
  IsDigit, IsNumeral, parse_int64-exact, parse_int64_wraps, parse_int64-IsNumeral,
  parse_int64-format_int,
}
use redis_inmemory_replica.Protocol.Reader.{read_next, Error}
use redis_inmemory_replica.Protocol.Reader.Fuel.{Progress, read_next-Progress}
use redis_inmemory_replica.Protocol.Writer.{write_value, write_command}
use redis_inmemory_replica.Protocol.Resp.{Resp, Resps, to_value, Fits, AllFit}
use redis_inmemory_replica.Protocol.Resp.RoundTrip.{read_next-write_value}
use redis_inmemory_replica.Protocol.Resp.Canonical.{IsReply, read_next-IsReply, reread}
use redis_inmemory_replica.Protocol.Skip.{skip}
use redis_inmemory_replica.Protocol.Skip.Agree.{skip-read_next}
use redis_inmemory_replica.Protocol.Bulk.{read_bulk_string_chunks, read_bulk_string_for_replication}
use redis_inmemory_replica.Protocol.Bulk.Collect.{Saw, replication-Saw, chunks-Saw}
use redis_inmemory_replica.Protocol.Command.{parse_command, upper_byte}
use redis_inmemory_replica.Protocol.Command.RoundTrip.{parse_command-write_command}

abbrev reply : Resp
reply =
    Resp.items
      (Resps.more (Resp.bulk (codes "key")) (Resps.more (Resp.number (negsuc 6)) Resps.none))

reply-Fits : Fits reply
reply-Fits =
    Fits.items (omega arith)
      (AllFit.more (Fits.bulk (omega arith)) (AllFit.more (Fits.number (omega arith)) AllFit.none))

read_next-write_value_example :
    (sent : Bytes) × (write_value (to_value reply) ≡ some sent)
    × (read_next (sent ++ codes "+OK") ≡ (ok (to_value reply), codes "+OK"))
read_next-write_value_example = read_next-write_value reply (codes "+OK") reply-Fits

read_next-Progress_example : Progress 3 (read_next (codes ":12"))
read_next-Progress_example = read_next-Progress (codes ":12")

abbrev line : Bytes
line = codes ":7" ++ 13 ∷ 10 ∷ codes "rest"

abbrev seven : Value
seven = value type_integer [] (pos 7) nil false

reads_seven : read_next line ≡ (ok seven, codes "rest")
unfolding read_next
reads_seven = refl

read_next-IsReply_example : IsReply seven
read_next-IsReply_example = read_next-IsReply line seven (codes "rest") reads_seven

reread_example :
    (sent : Bytes) × (write_value seven ≡ some sent)
    × (read_next (sent ++ codes "x") ≡ (ok seven, codes "x"))
reread_example = reread line seven (codes "rest") (codes "x") reads_seven

skip-read_next_example : skip line ≡ (ok tt, codes "rest")
skip-read_next_example = skip-read_next line seven (codes "rest") reads_seven

is_digit : (c : ℕ) → b'0' ≤ c → c ≤ b'9' → IsDigit c
is_digit c h k = (h, k)

parse_int64-exact_example :
    (42 < 2 ^ 63 → parse_int64 (codes "42") ≡ ok (pos 42))
    × (42 < 2 ^ 63 → parse_int64 (b'+' ∷ codes "42") ≡ ok (pos 42))
    × (parse_int64 (b'-' ∷ codes "42") ≡ ok (neg 42))
parse_int64-exact_example =
    parse_int64-exact (codes "42") ((omega arith, omega arith), ((omega arith, omega arith), tt))
      (λ e. cc) (omega arith)

parse_int64_wraps_example : parse_int64 (codes "9223372036854775808") ≡ ok (negsuc (2 ^ 63 - 1))
parse_int64_wraps_example =
    parse_int64_wraps (codes "9223372036854775808") nineteen_digits (omega arith) (omega arith)
  where
    nineteen_digits : All IsDigit (codes "9223372036854775808")
    nineteen_digits = ground arith

parse_int64-IsNumeral_example : IsNumeral (codes "-7")
parse_int64-IsNumeral_example =
    parse_int64-IsNumeral (codes "-7") (negsuc 6) (unfold parse_int64 in refl)

parse_int64-format_int_example : parse_int64 (format_int (negsuc 6)) ≡ ok (negsuc 6)
parse_int64-format_int_example = parse_int64-format_int (negsuc 6) (omega arith)

-- A callback that collects the chunks.
abbrev gather : Bytes → Option Bytes → Result Error Bytes
gather acc none = ok acc
gather acc (some chunk) = ok (acc ++ chunk)

abbrev Gathered : Bytes → Bytes → Type 0
Gathered seen acc = seen ≡ acc

gather-keeps :
    (seen chunk acc : Bytes)
    → Gathered seen acc
    → (acc' : Bytes) × (gather acc (some chunk) ≡ ok acc') × Gathered (seen ++ chunk) acc'
gather-keeps seen chunk acc e = (acc ++ chunk, refl, ap (λ t. t ++ chunk) e)

replication-Saw_example :
    Saw gather Gathered
      (λ s c a e h. gather-keeps s c a e)
      (codes "abc")
      (read_bulk_string_for_replication gather [] (codes "$3" ++ 13 ∷ 10 ∷ codes "abc*1"))
      (codes "*1")
unfolding decimal
replication-Saw_example =
    replication-Saw gather Gathered (λ s c a e h. gather-keeps s c a e) (codes "abc") (codes "*1")
      [] (omega arith) refl

chunks-Saw_example :
    Saw gather Gathered
      (λ s c a e h. gather-keeps s c a e)
      (codes "abc")
      (read_bulk_string_chunks gather []
        (codes "$3" ++ 13 ∷ 10 ∷ codes "abc" ++ 13 ∷ 10 ∷ codes "*1"))
      (codes "*1")
unfolding decimal
chunks-Saw_example =
    chunks-Saw gather Gathered (λ s c a e h. gather-keeps s c a e) (codes "abc") (codes "*1") []
      (omega arith) refl

parse_command-write_command_example :
    (v : Value) × (read_next
        (write_command (codes "set") (codes "k" ∷ codes "v" ∷ []) ++ codes "+OK")
      ≡ (ok v, codes "+OK"))
    × (parse_command v ≡ ok (record { name = codes "SET"; args = codes "k" ∷ codes "v" ∷ [] }))
unfolding upper_byte
parse_command-write_command_example =
    parse_command-write_command (codes "set") (codes "k" ∷ codes "v" ∷ []) (codes "+OK")
      (omega arith, (omega arith, (omega arith, tt)))
      (omega arith, (omega arith, (omega arith, tt))) (omega arith)
