-- ===== src/Replication/Rdb/Values.antt =====
-- `readValue` of replication/rdb.go and the functions that read or skip a value by its type.
pub mod Encode
use redis_inmemory_replica.Base.{
  ℕ, zero, suc, List, [], ◌∷◌, ◌++◌, Bytes, Bool, Option, none, some, Result, ok, err, ltb, leb,
  ◌==◌, ◌||◌, if◌then◌else◌,
}
use redis_inmemory_replica.Storage.Map.{Map, insert, bytes_key}
use redis_inmemory_replica.Stream.{read_full}
use redis_inmemory_replica.Replication.Handler.{
  RdbValue, string_value, list_value, set_value, hash_value,
}
use redis_inmemory_replica.Replication.Rdb.{
  VersionStrategy, RdbError, io, unsupported_type, skip_type_failed, skip_length_failed,
  skip_data_failed, Read, pure, fail, stream, wrap, wrapped, counted, continue, ◌>>=◌, ◌>>◌,
  can_skip, rescue, rescued,
}
use redis_inmemory_replica.Replication.Rdb.Strings.{read_length, read_string}

abbrev pub type_string : ℕ
type_string = 0

abbrev pub type_list : ℕ
type_list = 1

abbrev pub type_set : ℕ
type_set = 2

abbrev pub type_hash : ℕ
type_hash = 4

abbrev pub type_list_quicklist : ℕ
type_list_quicklist = 14

abbrev pub is_stream_type : ℕ → Bool
is_stream_type t = t == 15 || t == 19 || t == 20

module _ (strategy : VersionStrategy) where
  -- The loops of `readValue`.
  unfoldable pub read_list : ℕ → List Bytes → Read (List Bytes)
  unfolding read_string
  read_list zero list = pure list
  read_list (suc n) list = do element ← read_string strategy; read_list n (list ++ element ∷ [])

  unfoldable pub read_set : ℕ → Map Bytes (Unit {0}) → Read (Map Bytes (Unit {0}))
  unfolding read_string insert
  read_set zero set = pure set
  read_set (suc n) set = do member ← read_string strategy; read_set n (insert member tt set)

  unfoldable pub read_hash : ℕ → Map Bytes Bytes → Read (Map Bytes Bytes)
  unfolding read_string insert
  read_hash zero hash = pure hash
  read_hash (suc n) hash = do
    field ← read_string strategy
    value ← read_string strategy
    read_hash n (insert field value hash)

  -- The loop of `readQuicklist`: a node that cannot be read may be left out.
  abbrev pub node : Read (List Bytes)
  node = rescue strategy (do text ← read_string strategy; pure (text ∷ [])) (pure [])

  unfoldable pub read_nodes : ℕ → List Bytes → Read (List Bytes)
  unfolding read_string can_skip
  read_nodes zero all = pure all
  read_nodes (suc n) all = do elements ← node; read_nodes n (all ++ elements)

  -- `readQuicklist`
  unfoldable pub read_quicklist : Read RdbValue
  unfolding read_length read_nodes
  read_quicklist = do n ← read_length; all ← read_nodes n []; pure (list_value all)

  -- The loop of `skipStreamData`.
  unfoldable pub skip_strings : ℕ → Read (Unit {0})
  unfolding read_string can_skip
  skip_strings zero = pure tt
  skip_strings (suc n) = do
    rescue strategy (do text ← read_string strategy; pure tt) (pure tt)
    skip_strings n

  -- `skipStreamData`; `none` is the nil value that is not handed on.
  unfoldable pub skip_stream_data : Read (Option RdbValue)
  unfolding read_length skip_strings
  skip_stream_data = do n ← read_length; skip_strings n; pure none

  abbrev pub skip_string : ℕ → Read (Option RdbValue)
  skip_string t = do
    rescue strategy (wrap (skip_type_failed t) (do text ← read_string strategy; pure tt)) (pure tt)
    pure none

  abbrev pub discard_data : ℕ → Option ℕ → Read (Option RdbValue)
  discard_data t none = pure none
  discard_data t (some n) = do
    rescue strategy (do text ← stream (skip_data_failed t) (read_full n); pure tt) (pure tt)
    pure none

  -- A length that cannot be read may be left out, and the data with it.
  abbrev pub skip_encoded : ℕ → Read (Option RdbValue)
  skip_encoded t = do
    n ←
        rescue strategy (wrap (skip_length_failed t) (do n ← read_length; pure (some n)))
          (pure none)
    discard_data t n

  abbrev pub skip_unknown : ℕ → Read (Option RdbValue)
  skip_unknown t = rescue strategy (fail (unsupported_type t)) (pure none)

  -- Past the skippable errors an unknown type is an error in strict parsing only.
  abbrev pub lenient :
      Bool
      → ℕ
      → Result RdbError (Option RdbValue) × (ℕ × Bytes)
      → Result RdbError (Option RdbValue) × (ℕ × Bytes)
  lenient strict t (ok v, s) = (ok v, s)
  lenient strict t (err e, s) = if strict then (err e, s) else (ok none, s)

  -- `skipUnsupportedType`
  unfoldable pub skip_unsupported_type : ℕ → Read (Option RdbValue)
  unfolding read_string read_length read_full can_skip
  skip_unsupported_type t s =
      if ltb t 16
      then skip_string t s
      else if ltb t 32
      then skip_encoded t s
      else lenient strategy.requires_strict_parsing t (skip_unknown t s)

  -- `readValue`
  unfoldable pub read_value : ℕ → Read (Option RdbValue)
  unfolding read_string read_length read_list read_set read_hash read_quicklist skip_stream_data
      skip_unsupported_type
  read_value t =
      if t == type_string
      then (do text ← read_string strategy; pure (some (string_value text)))
      else if t == type_list
      then (do n ← read_length; list ← read_list n []; pure (some (list_value list)))
      else if t == type_set
      then (do n ← read_length; set ← read_set n []; pure (some (set_value set)))
      else if t == type_hash
      then (do n ← read_length; hash ← read_hash n []; pure (some (hash_value hash)))
      else if t == type_list_quicklist
      then (do list ← read_quicklist; pure (some list))
      else if is_stream_type t
      then skip_stream_data
      else skip_unsupported_type t
