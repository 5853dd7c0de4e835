-- ===== src/Replication/Rdb/Values/Encode.antt =====
-- The RDB encodings of values, written out on their own, and the reader at them.
use mathlib.Core.List.{append_assoc, append-nil}
use redis_inmemory_replica.Base.{
  ℕ, ◌^◌, ◌<◌, ◌≡◌, refl, ap, ◌∙◌, List, [], ◌∷◌, ◌++◌, Bytes, ok, some, length, All, map,
}
use redis_inmemory_replica.Storage.Map.{Map, insert, bytes_key}
use redis_inmemory_replica.Replication.Handler.{
  RdbValue, string_value, list_value, set_value, hash_value,
}
use redis_inmemory_replica.Replication.Rdb.{VersionStrategy}
use redis_inmemory_replica.Replication.Rdb.Strings.{read_length, read_string}
use redis_inmemory_replica.Replication.Rdb.Strings.Encode.{
  Text, text_of, IsText, encode_text, encode_length, read_length-encode_length,
  read_string-encode_text,
}
use redis_inmemory_replica.Replication.Rdb.Values.{
  type_string, type_list, type_set, type_hash, type_list_quicklist, read_list, read_set, read_hash,
  read_nodes, read_quicklist, read_value,
}

-- The values that the parser reads whole.
pub data Item : Type 0 where
  text : Text → Item
  list set quicklist : List Text → Item
  hash : List (Text × Text) → Item

abbrev pub item_type : Item → ℕ
item_type (text t) = type_string
item_type (list ts) = type_list
item_type (set ts) = type_set
item_type (quicklist ts) = type_list_quicklist
item_type (hash ps) = type_hash

abbrev pub add_members : Map Bytes (Unit {0}) → List Text → Map Bytes (Unit {0})
add_members m [] = m
add_members m (t ∷ ts) = add_members (insert (text_of t) tt m) ts

abbrev pub add_fields : Map Bytes Bytes → List (Text × Text) → Map Bytes Bytes
add_fields m [] = m
add_fields m ((f, v) ∷ ps) = add_fields (insert (text_of f) (text_of v) m) ps

-- What a handler gets: of a field or a member that stands twice, the last counts.
unfoldable pub item_value : Item → RdbValue
unfolding insert
item_value (text t) = string_value (text_of t)
item_value (list ts) = list_value (map text_of ts)
item_value (set ts) = set_value (add_members [] ts)
item_value (quicklist ts) = list_value (map text_of ts)
item_value (hash ps) = hash_value (add_fields [] ps)

abbrev pub IsItem : Item → Type 0
IsItem (text t) = IsText t
IsItem (list ts) = (length ts < 2 ^ 32) × All IsText ts
IsItem (set ts) = (length ts < 2 ^ 32) × All IsText ts
IsItem (quicklist ts) = (length ts < 2 ^ 32) × All IsText ts
IsItem (hash ps) = (length ps < 2 ^ 32) × All (λ (p : Text × Text). IsText p.0 × IsText p.1) ps

unfoldable pub encode_texts : List Text → Bytes
unfolding encode_text
encode_texts [] = []
encode_texts (t ∷ ts) = encode_text t ++ encode_texts ts

unfoldable pub encode_pairs : List (Text × Text) → Bytes
unfolding encode_text
encode_pairs [] = []
encode_pairs ((f, v) ∷ ps) = encode_text f ++ (encode_text v ++ encode_pairs ps)

unfoldable pub encode_item : Item → Bytes
unfolding encode_text encode_length encode_texts encode_pairs
encode_item (text t) = encode_text t
encode_item (list ts) = encode_length (length ts) ++ encode_texts ts
encode_item (set ts) = encode_length (length ts) ++ encode_texts ts
encode_item (quicklist ts) = encode_length (length ts) ++ encode_texts ts
encode_item (hash ps) = encode_length (length ps) ++ encode_pairs ps

module _ (strategy : VersionStrategy) where
  -- The next string of a list of them.
  next-text :
      (k : ℕ) (t : Text) (ts : List Text) (rest : Bytes)
      → IsText t
      → read_string strategy (k, encode_texts (t ∷ ts) ++ rest)
        ≡ (ok (text_of t), (k, encode_texts ts ++ rest))
  unfolding encode_texts
  next-text k t ts rest h =
      ap (λ u. read_string strategy (k, u)) (append_assoc (encode_text t) (encode_texts ts) rest)
      ∙ read_string-encode_text strategy k t (encode_texts ts ++ rest) h

  read_list-encode :
      (k : ℕ) (ts : List Text) (acc : List Bytes) (rest : Bytes)
      → All IsText ts
      → read_list strategy (length ts) acc (k, encode_texts ts ++ rest)
        ≡ (ok (acc ++ map text_of ts), (k, rest))
  unfolding read_list
  read_list-encode k [] acc rest h = unfold encode_texts in rw append-nil refl
  read_list-encode k (t ∷ ts) acc rest h = rw (next-text k t ts rest h.0) (
      read_list-encode k ts (acc ++ text_of t ∷ []) rest h.1
      ∙ ap (λ l. (ok l, (k, rest))) (append_assoc acc (text_of t ∷ []) (map text_of ts)))

  read_nodes-encode :
      (k : ℕ) (ts : List Text) (acc : List Bytes) (rest : Bytes)
      → All IsText ts
      → read_nodes strategy (length ts) acc (k, encode_texts ts ++ rest)
        ≡ (ok (acc ++ map text_of ts), (k, rest))
  unfolding read_nodes
  read_nodes-encode k [] acc rest h = unfold encode_texts in rw append-nil refl
  read_nodes-encode k (t ∷ ts) acc rest h = rw (next-text k t ts rest h.0) (
      read_nodes-encode k ts (acc ++ text_of t ∷ []) rest h.1
      ∙ ap (λ l. (ok l, (k, rest))) (append_assoc acc (text_of t ∷ []) (map text_of ts)))

  read_set-encode :
      (k : ℕ) (ts : List Text) (acc : Map Bytes (Unit {0})) (rest : Bytes)
      → All IsText ts
      → read_set strategy (length ts) acc (k, encode_texts ts ++ rest)
        ≡ (ok (add_members acc ts), (k, rest))
  unfolding read_set
  read_set-encode k [] acc rest h = unfold encode_texts in refl
  read_set-encode k (t ∷ ts) acc rest h =
      rw (next-text k t ts rest h.0) (read_set-encode k ts (insert (text_of t) tt acc) rest h.1)

  read_hash-encode :
      (k : ℕ) (ps : List (Text × Text)) (acc : Map Bytes Bytes) (rest : Bytes)
      → All (λ (p : Text × Text). IsText p.0 × IsText p.1) ps
      → read_hash strategy (length ps) acc (k, encode_pairs ps ++ rest)
        ≡ (ok (add_fields acc ps), (k, rest))
  unfolding read_hash encode_pairs
  read_hash-encode k [] acc rest h = refl
  read_hash-encode k ((f, v) ∷ ps) acc rest h =
      let e : (encode_text f ++ (encode_text v ++ encode_pairs ps)) ++ rest
          ≡ encode_text f ++ (encode_text v ++ (encode_pairs ps ++ rest)) =
        append_assoc (encode_text f) (encode_text v ++ encode_pairs ps) rest
        ∙ ap (λ u. encode_text f ++ u) (append_assoc (encode_text v) (encode_pairs ps) rest) in
      rw
        (
          e,
          read_string-encode_text strategy k f (encode_text v ++ (encode_pairs ps ++ rest)) h.0.0,
          read_string-encode_text strategy k v (encode_pairs ps ++ rest) h.0.1,
        )
        (read_hash-encode k ps (insert (text_of f) (text_of v) acc) rest h.1)

  length_first :
      (k n : ℕ) (body rest : Bytes)
      → n < 2 ^ 32
      → read_length (k, (encode_length n ++ body) ++ rest) ≡ (ok n, (k, body ++ rest))
  length_first k n body rest h =
      ap (λ u. read_length (k, u)) (append_assoc (encode_length n) body rest)
      ∙ read_length-encode_length k n (body ++ rest) h

  -- A value that was encoded is read back, and what follows it is left.
  pub read_value-encode_item :
      (k : ℕ) (i : Item) (rest : Bytes)
      → IsItem i
      → read_value strategy (item_type i) (k, encode_item i ++ rest)
        ≡ (ok (some (item_value i)), (k, rest))
  unfolding read_value encode_item item_value
  read_value-encode_item k (text t) rest h = rw (read_string-encode_text strategy k t rest h) refl
  read_value-encode_item k (list ts) rest (n, h) =
      rw (length_first k (length ts) (encode_texts ts) rest n, read_list-encode k ts [] rest h) refl
  read_value-encode_item k (set ts) rest (n, h) =
      rw (length_first k (length ts) (encode_texts ts) rest n, read_set-encode k ts [] rest h) refl
  read_value-encode_item k (quicklist ts) rest (n, h) =
      unfold read_quicklist in
      rw (length_first k (length ts) (encode_texts ts) rest n, read_nodes-encode k ts [] rest h)
        refl
  read_value-encode_item k (hash ps) rest (n, h) =
      rw (length_first k (length ps) (encode_pairs ps) rest n, read_hash-encode k ps [] rest h) refl
