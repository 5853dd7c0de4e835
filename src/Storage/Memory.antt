-- ===== src/Storage/Memory.antt =====
-- The state of `MemoryStorage` (storage/memory.go) and the accesses that its methods are made of.
-- The locks are not modelled: a method is one step. `none` is a panic, of a nil database or an index
-- out of range. The hash (xxhash) is a parameter.
pub mod Keyspace
pub mod Evict
pub mod Access
pub mod Batch
pub mod WellFormed
pub mod Shards
pub mod Update
pub mod Methods
pub mod Expiry
pub mod Count
pub mod Frame
pub mod Scan
pub mod New
use Prim.Native.Nat.{bit_and}
use redis_inmemory_replica.Base.{
  ℕ, ◌+◌, ◌-◌, List, [], ◌∷◌, ◌++◌, Bytes, Option, none, some, ℤ, get_elem?, set, map, Bool, leb,
  take, length, if◌then◌else◌,
}
use redis_inmemory_replica.Storage.Map.{Map, lookup, insert, nat_key}
use redis_inmemory_replica.Storage.Value.{Value}

abbrev pub Shard : Type 0
Shard = Map Bytes Value

abbrev pub Database : Type 0
Database = List Shard

-- The calls of a `StorageObserver`.
pub data Event : Type 0 where
  key_set : Bytes → Bytes → Event
  key_deleted key_expired key_accessed : Bytes → Event

-- `notified` is what the observers were told, oldest first.
pub record Memory : Type 0 where
  pub databases : Map ℕ Database
  pub current_db : ℕ
  pub shards : ℕ
  pub shard_mask : ℕ
  pub memory_limit : ℤ
  pub observers : List ℕ
  pub notified : List (ℕ × Event)

abbrev pub M : Type 0 → Type 0
M A = Memory → Option (A × Memory)

module _ {A : Type 0} where
  abbrev pub pure : A → M A
  pure a s = some (a, s)

module _ {A B : Type 0} where
  abbrev pub continue : Option (A × Memory) → (A → M B) → Option (B × Memory)
  continue none f = none
  continue (some (a, s)) f = f a s

  infixl 5 ◌>>=◌ ◌>>◌
  abbrev pub ◌>>=◌ : M A → (A → M B) → M B
  ◌>>=◌ m f s = continue (m s) f

  abbrev pub ◌>>◌ : M A → M B → M B
  m >> n = m >>= λ _. n

module _ {A : Type 0} where
  -- A value of the state, or the panic where there is none.
  abbrev pub found : Memory → Option A → Option (A × Memory)
  found s none = none
  found s (some a) = some (a, s)

-- `s.databases[s.currentDB]`
unfoldable pub database : M Database
unfolding lookup
database s = found s (lookup s.current_db s.databases)

-- `&db.shards[i]`
unfoldable pub shard : ℕ → Database → M Shard
shard i db s = found s (get_elem? db i)

-- All shards, for the loops `for i := 0; i < s.shards; i++`.
unfoldable pub all_shards : Database → M (List Shard)
all_shards db s = if leb s.shards (length db) then some (take s.shards db, s) else none

abbrev pub with_database : Memory → Database → Memory
with_database s db = record s { databases = insert s.current_db db s.databases }

-- A change of the map behind shard `i` of the current database.
unfoldable pub write_shard : ℕ → Shard → M (Unit {0})
unfolding database insert
write_shard i sh = do db ← database; λ s. some (tt, with_database s (set db i sh))

-- Every observer is called.
unfoldable pub notify : Event → M (Unit {0})
notify e s = some (tt, record s { notified = s.notified ++ map (λ o. (o, e)) s.observers })

module _ (hash : Bytes → ℕ) where
  -- `keyHash`: the index of the key's shard.
  unfoldable pub key_hash : Memory → Bytes → ℕ
  key_hash s key = bit_and (hash key) s.shard_mask

  -- The start of every method on a key.
  unfoldable pub open_shard : Bytes → M (ℕ × Shard)
  unfolding key_hash database shard
  open_shard key s = (do db ← database; sh ← shard (key_hash s key) db; pure (key_hash s key, sh)) s
