-- ===== src/Replication/Handler.antt =====
-- `rdbStorageHandler` of replication/client.go: the keys of a snapshot are collected in three slices,
-- side by side, and written in batches. The engine's `Set` returns no error, so the error branch of
-- `flushBatch` is never taken and is left out; of the statistics the model has the calls of
-- `RecordKey`. A load has one time, which every `Set` reads. `none` is a panic.
pub mod Batching
use redis_inmemory_replica.Base.{
  ℕ, ◌+◌, Bool, true, false, ◌&&◌, not, List, [], ◌∷◌, ◌++◌, Bytes, codes, Option, none, some, ℤ,
  pos, Result, ok, err, length, leb, ltb, ◌==◌, if◌then◌else◌,
}
use redis_inmemory_replica.Storage.Map.{Map}
use redis_inmemory_replica.Storage.Memory.{Shard, Memory}
use redis_inmemory_replica.Storage.Memory.Keyspace.{select_db}
use redis_inmemory_replica.Storage.Memory.Access.{set_key}
use redis_inmemory_replica.Replication.Apply.{
  ApplyError, database_out_of_range, Outcome, nonempty, member_int,
}

-- The `interface{}` that the parser hands over.
pub data RdbValue : Type 0 where
  string_value : Bytes → RdbValue
  hash_value : Map Bytes Bytes → RdbValue
  list_value : List Bytes → RdbValue
  set_value : Map Bytes (Unit {0}) → RdbValue
  other_value : RdbValue

pub record Handler : Type 0 where
  pub storage : Memory
  pub databases : List ℤ
  pub current_db : ℤ
  pub batch_size : ℕ
  pub key_batch : List Bytes
  pub value_batch : List Bytes
  pub expiry_batch : List (Option ℕ)
  pub key_cap : ℕ
  pub recorded : List (ℤ × Bytes)

-- `newRDBStorageHandler`
unfoldable pub new_handler : Memory → List ℤ → Handler
new_handler s dbs = record {
  storage = s;
  databases = dbs;
  current_db = pos 0;
  batch_size = 100;
  key_batch = [];
  value_batch = [];
  expiry_batch = [];
  key_cap = 100;
  recorded = [];
}

-- The name of the type; `%T` of a value of another type is left open.
abbrev pub key_type : RdbValue → Bytes
key_type (string_value b) = codes "string"
key_type (hash_value m) = codes "hash"
key_type (list_value l) = codes "list"
key_type (set_value m) = codes "set"
key_type other_value = []

-- Whether the filter lets the database pass: an empty filter lets all pass.
unfoldable pub passes : List ℤ → ℤ → Bool
unfolding member_int
passes dbs db = not (nonempty dbs && not (member_int db dbs))

-- Whether the filter lets the handler's database pass.
abbrev pub allowed : Handler → Bool
allowed h = passes h.databases h.current_db

abbrev pub emptied : Handler → Memory → Handler
emptied h s = record h { storage = s; key_batch = []; value_batch = []; expiry_batch = [] }

abbrev pub with_storage : Handler → Option Memory → Outcome Handler
with_storage h none = none
with_storage h (some s) = some (ok tt, emptied h s)

abbrev pub after_select : Handler → Memory × Bool → Outcome Handler
after_select h (s, true) = some (ok tt, record h { storage = s })
after_select h (s, false) = some (err database_out_of_range, record h { storage = s })

module _ {S T : Type 0} where
  -- The next step, unless this one fails.
  abbrev pub on_ok : (S → Outcome T) → (ApplyError → S → Outcome T) → Outcome S → Outcome T
  on_ok f g none = none
  on_ok f g (some (ok u, s)) = f s
  on_ok f g (some (err e, s)) = g e s

abbrev pub failed : {S : Type 0} → ApplyError → S → Outcome S
failed e s = some (err e, s)

module _ (hash : Bytes → ℕ) (choose : Shard → ℕ) (now : ℕ) where
  abbrev pub then_items : (Memory → Option Memory) → Option (Unit {0} × Memory) → Option Memory
  then_items f none = none
  then_items f (some (u, s)) = f s

  -- The loop of `flushBatch`; an index that one of the slices has not panics.
  unfoldable pub flush_items : List Bytes → List Bytes → List (Option ℕ) → Memory → Option Memory
  unfolding set_key
  flush_items [] vs es s = some s
  flush_items (key ∷ keys) (v ∷ vs) (e ∷ es) s =
      then_items (flush_items keys vs es) (set_key hash choose now key v e s)
  flush_items (key ∷ keys) _ _ s = none

  -- `flushBatch`
  unfoldable pub flush_batch : Handler → Outcome Handler
  unfolding flush_items
  flush_batch h =
      if length h.key_batch == 0
      then some (ok tt, h)
      else with_storage h (flush_items h.key_batch h.value_batch h.expiry_batch h.storage)

  abbrev pub select_allowed : ℤ → Handler → Outcome Handler
  select_allowed index h =
      if allowed h then after_select h (select_db index h.storage) else some (ok tt, h)

  -- `OnDatabase`
  unfoldable pub on_database : ℤ → Handler → Outcome Handler
  unfolding flush_batch passes select_db
  on_database index h =
      on_ok (λ g. select_allowed index (record g { current_db = index })) failed (flush_batch h)

  abbrev pub recorded_key : RdbValue → Handler → Handler
  recorded_key v h = record h { recorded = h.recorded ++ (h.current_db, key_type v) ∷ [] }

  abbrev pub pushed : Bytes → Bytes → Option ℕ → Handler → Handler
  pushed key b expiry h = record h {
    key_batch = h.key_batch ++ key ∷ [];
    value_batch = h.value_batch ++ b ∷ [];
    expiry_batch = h.expiry_batch ++ expiry ∷ [];
  }

  -- The end of `OnKey`: a full batch is written.
  unfoldable pub flush_full : Handler → Outcome Handler
  unfolding flush_batch
  flush_full h = if leb h.batch_size (length h.key_batch) then flush_batch h else some (ok tt, h)

  abbrev pub on_value : Bytes → RdbValue → Option ℕ → Handler → Outcome Handler
  on_value key (string_value b) expiry h = flush_full (pushed key b expiry h)
  on_value key _ expiry h = some (ok tt, h)

  -- `OnKey`
  unfoldable pub on_key : Bytes → RdbValue → Option ℕ → Handler → Outcome Handler
  unfolding passes flush_full
  on_key key v expiry h =
      if allowed h then on_value key v expiry (recorded_key v h) else some (ok tt, h)

  -- `OnEnd`
  unfoldable pub on_end : Handler → Outcome Handler
  unfolding flush_batch
  on_end h = flush_batch h

abbrev pub resized : ℕ → Handler → Handler
resized capacity h =
    if ltb h.key_cap capacity
    then record h { key_batch = []; value_batch = []; expiry_batch = []; key_cap = capacity }
    else h

-- `OnResizeDB`: `key_cap` is the capacity of `keyBatch`, which no batch of `batchSize` keys exceeds.
unfoldable pub on_resize_db : ℕ → ℕ → Handler → Outcome Handler
on_resize_db db_size expires_size h =
    some (ok tt, resized (if ltb h.batch_size db_size then h.batch_size else db_size) h)

-- `OnAux`
unfoldable pub on_aux : Bytes → Bytes → Handler → Outcome Handler
on_aux key v h = some (ok tt, h)

-- What a parser reports between the head and the end of a snapshot.
pub data RdbEvent : Type 0 where
  database : ℤ → RdbEvent
  key : Bytes → RdbValue → Option ℕ → RdbEvent

module _ (hash : Bytes → ℕ) (choose : Shard → ℕ) (now : ℕ) where
  abbrev pub on_event : RdbEvent → Handler → Outcome Handler
  on_event (database index) h = on_database hash choose now index h
  on_event (key k v expiry) h = on_key hash choose now k v expiry h

  -- A parser calls the handler for one event after the other, stops at the first error, and calls
  -- `OnEnd` where there is none.
  unfoldable pub load : List RdbEvent → Handler → Outcome Handler
  unfolding on_database on_key on_end
  load [] h = on_end hash choose now h
  load (e ∷ events) h = on_ok (load events) failed (on_event e h)
