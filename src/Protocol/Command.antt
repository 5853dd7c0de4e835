-- ===== src/Protocol/Command.antt =====
-- `ParseCommand` of protocol/types.go. The name is upper-cased by `strings.ToUpper`, which the model
-- has for ASCII text only: a letter above 127 stays, where the source maps it by the tables of Unicode.
pub mod RoundTrip
use redis_inmemory_replica.Base.{
  ℕ, ◌-◌, ◌<◌, All, Bool, ◌&&◌, List, [], ◌∷◌, Bytes, map, Result, ok, err, leb, ◌==◌, not,
  if◌then◌else◌,
}
use redis_inmemory_replica.Protocol.Types.{
  Value, Values, value, nil, cons, type_array, type_bulk_string,
}

pub record Command : Type 0 where
  pub name : Bytes
  pub args : List Bytes

pub data CommandError : Type 0 where
  invalid_format name_not_bulk arg_not_bulk : CommandError

-- The texts on which `to_upper` is `strings.ToUpper`.
abbrev pub IsAscii : Bytes → Type 0
IsAscii = All (λ c. c < 128)

-- `strings.ToUpper` on ASCII.
unfoldable pub upper_byte : ℕ → ℕ
upper_byte c = if leb b'a' c && leb c b'z' then c - 32 else c

abbrev pub to_upper : Bytes → Bytes
to_upper = map upper_byte

abbrev pub cons_arg : Bytes → Result CommandError (List Bytes) → Result CommandError (List Bytes)
cons_arg a (ok args) = ok (a ∷ args)
cons_arg a (err e) = err e

unfoldable pub parse_args : Values → Result CommandError (List Bytes)
parse_args nil = ok []
parse_args (cons (value t d n vs null) rest) =
    let args = parse_args rest in
    if t == type_bulk_string then cons_arg d args else err arg_not_bulk

abbrev pub named : Bytes → Result CommandError (List Bytes) → Result CommandError Command
named name (ok args) = ok (record { name = name; args = args })
named name (err e) = err e

abbrev pub parse_elements : Values → Result CommandError Command
parse_elements nil = err invalid_format
parse_elements (cons (value t d n vs null) rest) =
    if t == type_bulk_string then named (to_upper d) (parse_args rest) else err name_not_bulk

unfoldable pub parse_command : Value → Result CommandError Command
unfolding parse_args upper_byte
parse_command (value t d n vs null) =
    if t == type_array then parse_elements vs else err invalid_format
