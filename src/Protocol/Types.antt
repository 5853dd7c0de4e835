-- ===== src/Protocol/Types.antt =====
-- protocol/types.go: `ValueType` and `Value`. `ValueType` is a byte, as in the source.
use redis_inmemory_replica.Base.{ℕ, suc, Bool, List, [], ◌∷◌, Bytes, ℤ}

abbrev pub type_simple_string : ℕ
type_simple_string = b'+'

abbrev pub type_error : ℕ
type_error = b'-'

abbrev pub type_integer : ℕ
type_integer = b':'

abbrev pub type_bulk_string : ℕ
type_bulk_string = b'$'

abbrev pub type_array : ℕ
type_array = b'*'

abbrev pub type_null : ℕ
type_null = b'N'

-- The struct: `Type`, `Data`, `Integer`, `Array` and `IsNull`.
mutual
  pub data Value : Type 0 where
    value : ℕ → Bytes → ℤ → Values → Bool → Value

  pub data Values : Type 0 where
    nil : Values
    cons : Value → Values → Values

abbrev pub kind_of : Value → ℕ
kind_of (value t d i a n) = t

abbrev pub payload : Value → Bytes
payload (value t d i a n) = d

abbrev pub integer : Value → ℤ
integer (value t d i a n) = i

abbrev pub array : Value → Values
array (value t d i a n) = a

abbrev pub is_null : Value → Bool
is_null (value t d i a n) = n

-- `len(array)`
abbrev pub count_values : Values → ℕ
count_values nil = 0
count_values (cons v vs) = suc (count_values vs)

abbrev pub to_list : Values → List Value
to_list nil = []
to_list (cons v vs) = v ∷ to_list vs
