-- ===== src/Storage/Memory/Keyspace.antt =====
-- The methods of `MemoryStorage` that look at whole databases: `Keys`, `KeyCount`, `MemoryUsage`,
-- `FlushAll`, `SelectDB`, and the memory limit. `matches` is `matchPattern` at the strategy in force.
use redis_inmemory_replica.Base.{
  ℕ, ◌+◌, Bool, true, false, not, ◌&&◌, ◌||◌, List, [], ◌∷◌, ◌++◌, Bytes, codes, Option, none, some,
  ℤ, pos, negsuc, length, replicate, bytes_eq, ltb, if◌then◌else◌, map,
}
use redis_inmemory_replica.Storage.Map.{Map, lookup, insert, nat_key}
use redis_inmemory_replica.Storage.Value.{
  Value, ValueType, string, Payload, string_value, is_expired, after_readings,
}
use redis_inmemory_replica.Storage.Memory.{
  Shard, Database, Memory, M, pure, ◌>>=◌, database, all_shards,
}

-- `len(sh.data)`, over the shards.
unfoldable pub entries : List Shard → ℕ
entries [] = 0
entries (sh ∷ shards) = length sh + entries shards

-- `KeyCount`: expired entries count too.
unfoldable pub key_count : M ℕ
unfolding database all_shards entries
key_count = do db ← database; shards ← all_shards db; pure (entries shards)

-- The keys of a shard that are not expired and that a test lets through; the clock is read anew for
-- each entry.
unfoldable pub live_keys : (ℕ → ℕ) → (Bytes → Bool) → Shard → List Bytes
live_keys clock test [] = []
live_keys clock test ((key, v) ∷ sh) =
    let rest = live_keys (after_readings 1 clock) test sh in
    if not (is_expired (clock 0) v) && test key then key ∷ rest else rest

unfoldable pub collect : (ℕ → ℕ) → (Bytes → Bool) → List Shard → List Bytes
unfolding live_keys
collect clock test [] = []
collect clock test (sh ∷ shards) =
    live_keys clock test sh ++ collect (after_readings (length sh) clock) test shards

module _ (matches : Bytes → Bytes → Bool) where
  -- An empty pattern and `*` take every key.
  abbrev pub key_test : Bytes → Bytes → Bool
  key_test pattern key = bytes_eq pattern [] || bytes_eq pattern (codes "*") || matches key pattern

  -- `Keys`
  unfoldable pub keys : (ℕ → ℕ) → Bytes → M (List Bytes)
  unfolding database all_shards collect
  keys clock pattern = do
    db ← database
    shards ← all_shards db
    pure (collect clock (key_test pattern) shards)

-- `unsafe.Sizeof(Value{})` on a 64-bit platform: a word, an interface of two words, a pointer and an
-- int64.
abbrev pub value_header : ℕ
value_header = 40

abbrev pub payload_size : ValueType → Payload → ℕ
payload_size string (string_value b) = length b
payload_size _ _ = 0

-- `calculateValueSize`
unfoldable pub value_size : Value → ℕ
value_size v = value_header + payload_size v.kind v.payload

unfoldable pub shard_usage : Shard → ℕ
unfolding value_size
shard_usage [] = 0
shard_usage ((key, v) ∷ sh) = length key + value_size v + shard_usage sh

unfoldable pub shards_usage : List Shard → ℕ
unfolding shard_usage
shards_usage [] = 0
shards_usage (sh ∷ shards) = shard_usage sh + shards_usage shards

unfoldable pub usage_of : Map ℕ Database → M ℕ
unfolding all_shards shards_usage
usage_of [] = pure 0
usage_of ((n, db) ∷ dbs) = do
  shards ← all_shards db
  rest ← usage_of dbs
  pure (shards_usage shards + rest)

-- `MemoryUsage`
unfoldable pub memory_usage : M ℕ
unfolding usage_of
memory_usage s = usage_of s.databases s

-- `newShardedDatabase`
unfoldable pub new_sharded_database : Memory → Database
new_sharded_database s = replicate s.shards []

abbrev pub flush_each : Memory → Map ℕ Database → Map ℕ Database
flush_each s = map (λ (e : ℕ × Database). (e.0, new_sharded_database s))

-- `FlushAll`
unfoldable pub flush_all : Memory → Memory
unfolding new_sharded_database
flush_all s = record s { databases = flush_each s s.databases }

abbrev pub with_new : ℕ → Option Database → Memory → Memory
with_new db (some d) s = s
with_new db none s = record s { databases = insert db (new_sharded_database s) s.databases }

-- `SelectDB`: `false` is the error, for a number outside 0 to 15.
unfoldable pub select_db : ℤ → Memory → Memory × Bool
unfolding new_sharded_database insert lookup
select_db (negsuc n) s = (s, false)
select_db (pos db) s =
    if ltb 15 db
    then (s, false)
    else (record (with_new db (lookup db s.databases) s) { current_db = db }, true)

-- `SetMemoryLimit`
unfoldable pub set_memory_limit : ℤ → Memory → Memory
set_memory_limit limit s = record s { memory_limit = limit }
