-- ===== src/Protocol/Show.antt =====
-- The accessors and the texts of values and commands in protocol/types.go.
use redis_inmemory_replica.Base.{
  ℕ, ◌+◌, ◌/◌, ◌%◌, Bool, List, [], ◌∷◌, ◌++◌, Bytes, codes, ℤ, ltb, ◌==◌, if◌then◌else◌,
}
use redis_inmemory_replica.Protocol.Types.{
  Value, Values, value, nil, cons, kind_of, payload, integer, type_simple_string, type_error,
  type_integer, type_bulk_string, type_array, type_null,
}
use redis_inmemory_replica.Protocol.Integer.{format_int}
use redis_inmemory_replica.Protocol.Command.{Command}

-- `strings.Join`
unfoldable pub join : Bytes → List Bytes → Bytes
join sep [] = []
join sep (s ∷ []) = s
join sep (s ∷ (t ∷ ss)) = s ++ sep ++ join sep (t ∷ ss)

-- `%c` of a byte, in UTF-8.
abbrev pub rune : ℕ → Bytes
rune c = if ltb c 128 then c ∷ [] else (192 + c / 64) ∷ (128 + c % 64) ∷ []

abbrev pub show_bulk : Bool → Bytes → Bytes
show_bulk null d = if null then codes "(nil)" else d

-- `String`
unfoldable mutual
  unfolding format_int join

  pub to_string : Value → Bytes
  to_string (value t d i vs null) =
      let parts = strings vs in
      if t == type_simple_string
      then d
      else if t == type_error
      then d
      else if t == type_integer
      then format_int i
      else if t == type_bulk_string
      then show_bulk null d
      else if t == type_array
      then show_bulk null (codes "[" ++ join (codes ", ") parts ++ codes "]")
      else if t == type_null
      then codes "(nil)"
      else codes "unknown type " ++ rune t

  pub strings : Values → List Bytes
  strings nil = []
  strings (cons v vs) = to_string v ∷ strings vs

-- `Bytes`, `Int`, `IsError` and `Error`
unfoldable pub value_bytes : Value → Bytes
value_bytes v = payload v

unfoldable pub value_int : Value → ℤ
value_int v = integer v

unfoldable pub is_error : Value → Bool
is_error v = kind_of v == type_error

unfoldable pub error_text : Value → Bytes
error_text v = if kind_of v == type_error then payload v else []

-- `Command.String`
unfoldable pub command_string : Command → Bytes
unfolding join
command_string c = c.name ++ codes " " ++ join (codes " ") c.args
