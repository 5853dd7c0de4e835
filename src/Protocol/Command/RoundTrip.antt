-- ===== src/Protocol/Command/RoundTrip.antt =====
-- A command that the writer sends, read and parsed.
use redis_inmemory_replica.Base.{
  suc, ◌+◌, ◌≤◌, ◌≡◌, refl, ap, List, [], ◌∷◌, ◌++◌, Bytes, ok, length, arith,
}
use redis_inmemory_replica.Protocol.Types.{Value}
use redis_inmemory_replica.Protocol.Reader.{read_next, max_bulk_size, max_array_size}
use redis_inmemory_replica.Protocol.Writer.{write_bulk_string, write_args, write_command}
use redis_inmemory_replica.Protocol.Resp.{Resp, Resps, to_value, to_values, count, Fits, AllFit}
use redis_inmemory_replica.Protocol.Resp.RoundTrip.{wire, wires, read_next-wire}
use redis_inmemory_replica.Protocol.Command.{IsAscii, to_upper, parse_args, parse_command}

-- The elements of a command's array.
abbrev bulks : List Bytes → Resps
bulks [] = Resps.none
bulks (a ∷ args) = Resps.more (Resp.bulk a) (bulks args)

count-bulks : (args : List Bytes) → count (bulks args) ≡ length args
count-bulks [] = refl
count-bulks (a ∷ args) = ap suc (count-bulks args)

wires-bulks : (args : List Bytes) → wires (bulks args) ≡ write_args args
unfolding wire
wires-bulks [] = refl
wires-bulks (a ∷ args) = ap (λ b. write_bulk_string a ++ b) (wires-bulks args)

-- The reply that a command is.
abbrev command_reply : Bytes → List Bytes → Resp
command_reply cmd args = Resp.items (bulks (cmd ∷ args))

write_command-wire :
    (cmd : Bytes) (args : List Bytes) → write_command cmd args ≡ wire (command_reply cmd args)
unfolding write_command wire
write_command-wire cmd args =
    let n : 1 + length args ≡ suc (count (bulks args)) = omega (arith, count-bulks args) in
    rw (n, wires-bulks args)

-- Every argument is within the limit of a bulk string.
abbrev pub Sendable : List Bytes → Type 0
Sendable [] = Unit
Sendable (a ∷ args) = (length a ≤ max_bulk_size) × Sendable args

bulks-AllFit : (args : List Bytes) → Sendable args → AllFit (bulks args)
bulks-AllFit [] h = AllFit.none
bulks-AllFit (a ∷ args) h = AllFit.more (Fits.bulk h.0) (bulks-AllFit args h.1)

parse_args-bulks : (args : List Bytes) → parse_args (to_values (bulks args)) ≡ ok args
unfolding parse_args to_value
parse_args-bulks [] = refl
parse_args-bulks (a ∷ args) = rw (parse_args-bulks args)

parse_command-reply :
    (cmd : Bytes) (args : List Bytes)
    → parse_command (to_value (command_reply cmd args))
      ≡ ok (record { name = to_upper cmd; args = args })
unfolding parse_command to_value
parse_command-reply cmd args = rw (parse_args-bulks args)

pub parse_command-written :
    (cmd : Bytes) (args : List Bytes) (rest : Bytes)
    → Sendable (cmd ∷ args)
    → length (cmd ∷ args) ≤ max_array_size
    → (v : Value) × (read_next (write_command cmd args ++ rest) ≡ (ok v, rest))
      × (parse_command v ≡ ok (record { name = to_upper cmd; args = args }))
parse_command-written cmd args rest h k = (
  to_value (command_reply cmd args),
  rw write_command-wire (
      read_next-wire (command_reply cmd args) rest
        (Fits.items (rw count-bulks k) (bulks-AllFit (cmd ∷ args) h))),
  parse_command-reply cmd args,
)

-- A command that was written is read back whole, leaving what follows it, and parses to its name in
-- upper case and its arguments, where the name is ASCII text and the command has at most 2^20 parts
-- of at most 1 GiB each.
pub parse_command-write_command :
    (cmd : Bytes) (args : List Bytes) (rest : Bytes)
    → IsAscii cmd
    → Sendable (cmd ∷ args)
    → length (cmd ∷ args) ≤ max_array_size
    → (v : Value) × (read_next (write_command cmd args ++ rest) ≡ (ok v, rest))
      × (parse_command v ≡ ok (record { name = to_upper cmd; args = args }))
parse_command-write_command cmd args rest a h k = parse_command-written cmd args rest h k
