-- ===== src/Storage/Memory/Batch.antt =====
-- `Del` and `Exists`: the keys are grouped by shard first, and the groups are done one after the
-- other. `range` over the groups has no fixed order; the model takes the order of first appearance.
pub mod Groups
pub mod Del
pub mod Exists
use redis_inmemory_replica.Base.{
  ℕ, ◌+◌, List, [], ◌∷◌, ◌++◌, Bytes, Option, none, some, length, if◌then◌else◌,
}
use redis_inmemory_replica.Storage.Map.{Map, lookup, insert, delete, bytes_key, nat_key}
use redis_inmemory_replica.Storage.Value.{Value, is_expired, after_readings}
use redis_inmemory_replica.Storage.Memory.{
  Shard, Memory, M, pure, ◌>>=◌, ◌>>◌, database, shard, write_shard, notify, key_hash, key_deleted,
}

abbrev pub or_empty : Option (List Bytes) → List Bytes
or_empty none = []
or_empty (some keys) = keys

module _ (hash : Bytes → ℕ) where
  -- `keysByShard[shardIdx] = append(keysByShard[shardIdx], key)`, for each key.
  unfoldable pub group_keys : Memory → List Bytes → Map ℕ (List Bytes) → Map ℕ (List Bytes)
  unfolding key_hash lookup insert
  group_keys s [] groups = groups
  group_keys s (key ∷ keys) groups =
      let i = key_hash hash s key in
      group_keys s keys (insert i (or_empty (lookup i groups) ++ key ∷ []) groups)

-- One key of a group, in shard `i` of the database.
abbrev pub del_present : ℕ → Bytes → Shard → Option Value → M ℕ
del_present i key sh none = pure 0
del_present i key sh (some v) = do write_shard i (delete key sh); notify (key_deleted key); pure 1

unfoldable pub del_key : ℕ → Bytes → M ℕ
unfolding database shard write_shard notify lookup delete
del_key i key = do db ← database; sh ← shard i db; del_present i key sh (lookup key sh)

unfoldable pub del_group : ℕ → List Bytes → ℕ → M ℕ
unfolding del_key
del_group i [] deleted = pure deleted
del_group i (key ∷ keys) deleted = do d ← del_key i key; del_group i keys (deleted + d)

unfoldable pub del_groups : Map ℕ (List Bytes) → ℕ → M ℕ
unfolding del_group
del_groups [] deleted = pure deleted
del_groups ((i, keys) ∷ groups) deleted = do
  deleted' ← del_group i keys deleted
  del_groups groups deleted'

abbrev pub exists_in : ℕ → Option Value → ℕ
exists_in now none = 0
exists_in now (some v) = if is_expired now v then 0 else 1

unfoldable pub exists_key : ℕ → ℕ → Bytes → M ℕ
unfolding database shard lookup is_expired
exists_key now i key = do db ← database; sh ← shard i db; pure (exists_in now (lookup key sh))

unfoldable pub exists_group : (ℕ → ℕ) → ℕ → List Bytes → ℕ → M ℕ
unfolding exists_key
exists_group clock i [] count = pure count
exists_group clock i (key ∷ keys) count = do
  d ← exists_key (clock 0) i key
  exists_group (after_readings 1 clock) i keys (count + d)

unfoldable pub exists_groups : (ℕ → ℕ) → Map ℕ (List Bytes) → ℕ → M ℕ
unfolding exists_group
exists_groups clock [] count = pure count
exists_groups clock ((i, keys) ∷ groups) count = do
  count' ← exists_group clock i keys count
  exists_groups (after_readings (length keys) clock) groups count'

module _ (hash : Bytes → ℕ) where
  -- `Del`
  unfoldable pub del : List Bytes → M ℕ
  unfolding group_keys del_groups
  del keys s = del_groups (group_keys hash s keys []) 0 s

  -- `Exists`: the clock is read anew for each key.
  unfoldable pub exists : (ℕ → ℕ) → List Bytes → M ℕ
  unfolding group_keys exists_groups
  exists clock keys s = exists_groups clock (group_keys hash s keys []) 0 s
