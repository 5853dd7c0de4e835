-- ===== src/Storage/Memory/New/Rounded.antt =====
-- The number of shards of a new engine.
use redis_inmemory_replica.Base.{
  ℕ, zero, suc, ◌^◌, ◌≤◌, ◌≡◌, refl, List, [], ◌∷◌, Bytes, ℤ, pos, negsuc, All, arith, ltb, true,
}
use redis_inmemory_replica.Storage.Memory.{Memory}
use redis_inmemory_replica.Storage.Memory.WellFormed.{IsWellFormed}
use redis_inmemory_replica.Storage.Memory.New.{with_shard_count, with_options, blank, new_memory}
use redis_inmemory_replica.Storage.Memory.New.Power.{IsRounded, next_power_of2-IsRounded}
use redis_inmemory_replica.Storage.Memory.New.WellFormed.{new_memory-IsWellFormed}

-- A count that is not above 2 ^ 43: a slice of shards, of 32 bytes each, can be that long.
abbrev pub IsModest : ℤ → Type 0
IsModest (pos n) = n ≤ 2 ^ 43
IsModest (negsuc n) = Unit

-- The last count that is positive, or else a default.
abbrev pub asked : ℕ → List ℤ → ℕ
asked default [] = default
asked default (pos zero ∷ counts) = asked default counts
asked default (pos (suc n) ∷ counts) = asked (suc n) counts
asked default (negsuc n ∷ counts) = asked default counts

with_shard_count-IsRounded :
    (n : ℕ) (s : Memory)
    → suc n ≤ 2 ^ 43
    → IsRounded (suc n) (with_shard_count (pos (suc n)) s).shards
unfolding with_shard_count
with_shard_count-IsRounded n s h =
    let on : ltb 0 (suc n) ≡ true = ground arith in
    rw on (next_power_of2-IsRounded (suc n) (omega arith) (omega arith))

with_options-IsRounded :
    (counts : List ℤ) (default : ℕ) (s : Memory)
    → All IsModest counts
    → IsRounded default s.shards
    → IsRounded (asked default counts) (with_options counts s).shards
unfolding with_options with_shard_count
with_options-IsRounded [] default s h r = r
with_options-IsRounded (pos zero ∷ counts) default s h r =
    with_options-IsRounded counts default s h.1 r
with_options-IsRounded (pos (suc n) ∷ counts) default s h r =
    with_options-IsRounded counts (suc n) (with_shard_count (pos (suc n)) s) h.1
      (with_shard_count-IsRounded n s h.0)
with_options-IsRounded (negsuc n ∷ counts) default s h r =
    with_options-IsRounded counts default s h.1 r

-- `NewMemory` with shard counts up to 2 ^ 43, zero and negative ones included, makes a well-formed
-- engine. The number of its shards is a power of two, not less than the last positive count, or 64
-- where there is none, and less than its double.
pub new_memory-IsRounded :
    (hash : Bytes → ℕ) (counts : List ℤ)
    → All IsModest counts
    → IsWellFormed hash (new_memory counts) × IsRounded (asked 64 counts) (new_memory counts).shards
unfolding new_memory
new_memory-IsRounded hash counts h = (
  new_memory-IsWellFormed hash counts,
  with_options-IsRounded counts 64 blank h ((6, refl), omega arith, omega arith),
)
