-- ===== src/Storage/Memory/Evict.antt =====
-- `EvictLRU` and `evictLRU`. Which key `range` visits first in a map is not specified: `choose` is
-- any rule for it. The loop of rounds runs on fuel, one more than the number of keys to evict, since
-- every round but the last evicts one at least.
use redis_inmemory_replica.Base.{
  ℕ, zero, suc, ◌+◌, ◌%◌, List, Bytes, Option, none, some, ℤ, pos, negsuc, length, get_elem?, ltb,
  ◌==◌, if◌then◌else◌,
}
use redis_inmemory_replica.Storage.Map.{delete, bytes_key}
use redis_inmemory_replica.Storage.Value.{Value}
use redis_inmemory_replica.Storage.Memory.{
  Shard, Memory, M, pure, ◌>>=◌, ◌>>◌, continue, database, shard, write_shard, notify, key_deleted,
}
use redis_inmemory_replica.Storage.Memory.Keyspace.{memory_usage}

module _ (choose : Shard → ℕ) where
  abbrev pub key_at : List (Bytes × Value) → ℕ → Option Bytes
  key_at sh i = elim (get_elem? sh i) [ none ↦ none | some e ↦ some e.0 ]

  -- The key that `range` visits first.
  unfoldable pub first_key : Shard → Option Bytes
  first_key sh = key_at sh (choose sh % length sh)

  abbrev pub evict_key : ℕ → Shard → ℕ → Option Bytes → M ℕ
  evict_key i sh evicted none = pure evicted
  evict_key i sh evicted (some key) = do
    write_shard i (delete key sh)
    notify (key_deleted key)
    pure (evicted + 1)

  unfoldable pub evict_one : ℕ → ℕ → M ℕ
  unfolding database shard write_shard notify delete first_key
  evict_one i evicted = do db ← database; sh ← shard i db; evict_key i sh evicted (first_key sh)

  -- One round over the shards from `i` on, `n` of which are left.
  unfoldable pub evict_round : ℕ → ℕ → ℕ → ℕ → M ℕ
  unfolding evict_one
  evict_round zero i count evicted = pure evicted
  evict_round (suc n) i count evicted =
      let rest : M ℕ = (do evicted' ← evict_one i evicted; evict_round n (i + 1) count evicted') in
      if ltb evicted count then rest else pure evicted

  -- `none` when the fuel is out.
  unfoldable pub evict_rounds : ℕ → ℕ → ℕ → M ℕ
  unfolding evict_round
  evict_rounds zero count evicted s = none
  evict_rounds (suc f) count evicted s =
      let round : Option (ℕ × Memory) =
        continue (evict_round s.shards 0 count evicted s) (λ evicted'.
          let rest : M ℕ = evict_rounds f count evicted' in
          if evicted' == evicted then pure evicted' else rest) in
      if ltb evicted count then round else some (evicted, s)

  abbrev pub at_least_zero : ℤ → ℕ
  at_least_zero (pos n) = n
  at_least_zero (negsuc n) = 0

  -- `EvictLRU(count)`
  unfoldable pub evict_lru : ℤ → M ℕ
  unfolding evict_rounds
  evict_lru count = evict_rounds (suc (at_least_zero count)) (at_least_zero count) 0

  abbrev pub over_limit : ℕ → M (Unit {0})
  over_limit limit = do
    usage ← memory_usage
    if ltb limit usage then (do evict_lru (pos 1); pure tt) else pure tt

  -- The end of `Set`: past a positive limit one key is evicted.
  unfoldable pub enforce_limit : ℤ → M (Unit {0})
  unfolding memory_usage evict_lru
  enforce_limit (pos zero) = pure tt
  enforce_limit (pos (suc limit)) = over_limit (suc limit)
  enforce_limit (negsuc n) = pure tt
