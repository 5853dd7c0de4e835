-- ===== src/Storage/Memory/New.antt =====
-- `NewMemory`, `WithShardCount` and `nextPowerOf2`. The model is that of counts up to 2 ^ 43: above,
-- no slice of shards can be made, and the source panics, or passes an `int` above 2 ^ 62. The cleanup goroutine that `NewMemory` starts is not modelled.
pub mod WellFormed
pub mod Flush
pub mod Select
pub mod Power
pub mod Rounded
use Prim.Native.Nat.{bit_or}
use redis_inmemory_replica.Base.{
  ℕ, ◌+◌, ◌-◌, ◌/◌, ◌^◌, Bool, List, [], ◌∷◌, ℤ, pos, negsuc, ltb, leb, if◌then◌else◌,
}
use redis_inmemory_replica.Storage.Map.{insert, nat_key}
use redis_inmemory_replica.Storage.Memory.{Memory}
use redis_inmemory_replica.Storage.Memory.Keyspace.{new_sharded_database}

-- `n |= n >> k`
abbrev pub smear : ℕ → ℕ → ℕ
smear k n = bit_or n (n / 2 ^ k)

-- `nextPowerOf2`
unfoldable pub next_power_of2 : ℕ → ℕ
next_power_of2 n =
    if leb n 1 then 1 else smear 32 (smear 16 (smear 8 (smear 4 (smear 2 (smear 1 (n - 1)))))) + 1

-- `WithShardCount(count)`
unfoldable pub with_shard_count : ℤ → Memory → Memory
unfolding next_power_of2
with_shard_count (negsuc n) s = s
with_shard_count (pos n) s =
    if ltb 0 n then record s { shards = next_power_of2 n; shard_mask = next_power_of2 n - 1 } else s

unfoldable pub with_options : List ℤ → Memory → Memory
unfolding with_shard_count
with_options [] s = s
with_options (count ∷ counts) s = with_options counts (with_shard_count count s)

abbrev pub blank : Memory
blank = record {
  databases = [];
  current_db = 0;
  shards = 64;
  shard_mask = 63;
  memory_limit = pos 0;
  observers = [];
  notified = [];
}

abbrev pub with_default : Memory → Memory
with_default s = record s { databases = insert 0 (new_sharded_database s) s.databases }

-- `NewMemory`, with a `WithShardCount` for each count.
unfoldable pub new_memory : List ℤ → Memory
unfolding with_options insert new_sharded_database
new_memory counts = with_default (with_options counts blank)
