-- ===== src/Server/Items.antt =====
-- The `interface{}` values that the handlers of server/server.go put in their replies, and
-- `convertToValue`. A map is the list of its pairs in the order that `range` gives; a float64 is its
-- 64-bit pattern. `print` is `fmt.Sprintf("%v", …)`.
use redis_inmemory_replica.Base.{
  ℕ, ◌==◌, if◌then◌else◌, ◌++◌, codes, Bool, true, false, List, [], ◌∷◌, Bytes, ℤ, pos,
}
use redis_inmemory_replica.Protocol.Types.{
  Value, Values, value, nil, cons, type_simple_string, type_error, type_integer, type_bulk_string,
  type_array,
}

mutual
  pub data Item : Type 0 where
    null : Item
    text slice : Bytes → Item
    int : ℤ → Item
    flag : Bool → Item
    float : ℕ → Item
    list : Items → Item
    strings : List Bytes → Item
    fields : Pairs → Item

  pub data Items : Type 0 where
    none : Items
    more : Item → Items → Items

  pub data Pairs : Type 0 where
    no_pairs : Pairs
    pair : Bytes → Item → Pairs → Pairs

abbrev pub bulk_value : Bytes → Value
bulk_value bytes = value type_bulk_string bytes (pos 0) nil false

abbrev pub null_value : Value
null_value = value type_bulk_string [] (pos 0) nil true

abbrev pub integer_value : ℤ → Value
integer_value n = value type_integer [] n nil false

abbrev pub bulk_values : List Bytes → Values
bulk_values [] = nil
bulk_values (s ∷ ss) = cons (bulk_value s) (bulk_values ss)

abbrev pub flag_value : Bool → Value
flag_value true = integer_value (pos 1)
flag_value false = null_value

module _ (print : Item → Bytes) where
  unfoldable mutual
    -- `convertToValue`
    pub convert_to_value : Item → Value
    convert_to_value null = null_value
    convert_to_value (text s) = bulk_value s
    convert_to_value (slice b) = bulk_value b
    convert_to_value (int n) = integer_value n
    convert_to_value (flag b) = flag_value b
    convert_to_value (float w) = bulk_value (print (float w))
    convert_to_value (list is) = value type_array [] (pos 0) (convert_values is) false
    convert_to_value (strings ss) = value type_array [] (pos 0) (bulk_values ss) false
    convert_to_value (fields ps) = bulk_value (print (fields ps))

    -- The loop of `writeArray`.
    pub convert_values : Items → Values
    convert_values none = nil
    convert_values (more i is) = cons (convert_to_value i) (convert_values is)

abbrev pub texts : List Bytes → Items
texts [] = none
texts (s ∷ ss) = more (text s) (texts ss)

-- The pairs of a map as items, a key and its value in turn.
abbrev pub flat : Pairs → Items
flat no_pairs = none
flat (pair k v ps) = more (text k) (more v (flat ps))

-- The `switch` on the type of a value that the master sent.
abbrev pub kind_item : ℕ → Bytes → ℤ → Items → Bool → Item
kind_item t d n is is_nil =
    if t == type_simple_string
    then text d
    else if t == type_error
    then text (codes "ERR " ++ d)
    else if t == type_integer
    then int n
    else if t == type_bulk_string
    then (if is_nil then null else slice d)
    else if t == type_array
    then (if is_nil then null else list is)
    else text d

unfoldable mutual
  -- `protocolValueToInterface`
  pub to_item : Value → Item
  to_item (value t d n vs is_nil) = let is = to_items vs in kind_item t d n is is_nil

  pub to_items : Values → Items
  to_items nil = none
  to_items (cons v vs) = more (to_item v) (to_items vs)
