-- ===== src/Storage/Memory/Scan.antt =====
-- `Scan`, `GetMemoryLimit`, `CurrentDB` and `AddObserver`. The entries of a shard come in the order of
-- the model's list: Go gives no order. A count that is negative or too large for
-- a slice panics, where the slice of keys is made.
use redis_inmemory_replica.Base.{
  ℕ, ◌+◌, ◌^◌, Bool, false, ◌||◌, List, [], ◌∷◌, ◌++◌, Bytes, none, ℤ, pos, negsuc, length,
  bytes_eq, leb, ltb, if◌then◌else◌,
}
use redis_inmemory_replica.Storage.Value.{Value, is_expired, after_readings}
use redis_inmemory_replica.Storage.Memory.{Shard, Memory, M, pure, ◌>>=◌, database, all_shards}

-- The loop goes on with the counter and the keys, or `Scan` returns the next cursor and the keys.
pub data ScanStep : Type 0 where
  running returned : ℕ → List Bytes → ScanStep

abbrev pub below : ℕ → ℤ → Bool
below i (pos cursor) = ltb i cursor
below i (negsuc n) = false

abbrev pub after_entry : (ℕ → List Bytes → ScanStep) → ScanStep → ScanStep
after_entry f (running i keys) = f i keys
after_entry f (returned i keys) = returned i keys

abbrev pub add_key : ℕ → ℕ → List Bytes → ScanStep
add_key count i keys =
    if leb count (length keys) then returned (i + 1) keys else running (i + 1) keys

module _ (matches : Bytes → Bytes → Bool) (cursor : ℤ) (match : Bytes) (count : ℕ) where
  unfoldable pub scan_entry : ℕ → Bytes → Value → ℕ → List Bytes → ScanStep
  unfolding bytes_eq is_expired
  scan_entry now key v i keys =
      if below i cursor
      then running (i + 1) keys
      else if is_expired now v
      then running i keys
      else if bytes_eq match [] || matches key match
      then add_key count i (keys ++ key ∷ [])
      else running i keys

  unfoldable pub scan_shard : (ℕ → ℕ) → Shard → ℕ → List Bytes → ScanStep
  unfolding scan_entry
  scan_shard clock [] i keys = running i keys
  scan_shard clock ((key, v) ∷ sh) i keys =
      after_entry (scan_shard (after_readings 1 clock) sh) (scan_entry (clock 0) key v i keys)

  unfoldable pub scan_shards : (ℕ → ℕ) → List Shard → ℕ → List Bytes → ScanStep
  unfolding scan_shard
  scan_shards clock [] i keys = running i keys
  scan_shards clock (sh ∷ shards) i keys =
      after_entry (scan_shards (after_readings (length sh) clock) shards)
        (scan_shard clock sh i keys)

abbrev pub scanned : ScanStep → ℕ × List Bytes
scanned (running i keys) = (0, keys)
scanned (returned i keys) = (i, keys)

-- The largest capacity of a slice of strings: 2 ^ 48 bytes of 16 for each.
abbrev pub max_capacity : ℕ
max_capacity = 2 ^ 44

abbrev pub scan_within : (Bytes → Bytes → Bool) → (ℕ → ℕ) → ℤ → Bytes → ℕ → M (ℕ × List Bytes)
scan_within matches clock cursor match count = do
  db ← database
  shards ← all_shards db
  pure (scanned (scan_shards matches cursor match count clock shards 0 []))

-- `Scan`: the clock is read anew for each entry.
unfoldable pub scan_keys : (Bytes → Bytes → Bool) → (ℕ → ℕ) → ℤ → Bytes → ℤ → M (ℕ × List Bytes)
unfolding database all_shards scan_shards
scan_keys matches clock cursor match (negsuc n) s = none
scan_keys matches clock cursor match (pos count) s =
    if ltb max_capacity count then none else scan_within matches clock cursor match count s

-- `GetMemoryLimit`
unfoldable pub get_memory_limit : Memory → ℤ
get_memory_limit s = s.memory_limit

-- `CurrentDB`
unfoldable pub selected_db : Memory → ℕ
selected_db s = s.current_db

-- `AddObserver`
unfoldable pub add_observer : ℕ → Memory → Memory
add_observer o s = record s { observers = s.observers ++ o ∷ [] }
