-- ===== src/Examples/Storage.antt =====
-- The theorems of the engine and of the matchers at concrete inputs.
use mathlib.Core.Path.{subst}
use redis_inmemory_replica.Base.{
  sym, ℕ, zero, suc, ◌≤◌, ◌+◌, ◌≡◌, [], ◌∷◌, ◌++◌, Bytes, codes, bytes_eq, Option, none, some, pos,
  arith, map, true, if◌then◌else◌, negsuc,
}
use redis_inmemory_replica.Storage.Value.{passed}
use redis_inmemory_replica.Storage.Memory.{Memory, key_set}
use redis_inmemory_replica.Storage.Memory.New.{new_memory}
use redis_inmemory_replica.Storage.Memory.New.WellFormed.{new_memory-IsWellFormed}
use redis_inmemory_replica.Storage.Memory.New.Power.{IsRounded}
use redis_inmemory_replica.Storage.Memory.New.Rounded.{asked, new_memory-IsRounded}
use redis_inmemory_replica.Storage.Memory.WellFormed.{IsWellFormed, view}
use redis_inmemory_replica.Storage.Memory.Access.{get, store, new_value, expire, ttl, key_type}
use redis_inmemory_replica.Storage.Memory.Update.{Writes}
use redis_inmemory_replica.Storage.Memory.Methods.{
  live, reply, SameLive, store-Writes, get-refines, get-store,
}
use redis_inmemory_replica.Storage.Memory.Expiry.{
  expired_at, is_live, time_left, seen_type, expire-Writes, ttl-view, key_type-view,
}
use redis_inmemory_replica.Storage.Memory.New.Flush.{flush_all-view}
use redis_inmemory_replica.Storage.Memory.Keyspace.{flush_all}
use redis_inmemory_replica.Storage.Memory.Batch.Exists.{live_count, Between, exists-live_count}
use redis_inmemory_replica.Storage.Memory.Batch.{del, exists}
use redis_inmemory_replica.Storage.Memory.Batch.Groups.{has}
use redis_inmemory_replica.Storage.Memory.Batch.Del.{Deletes, del-Deletes}
use redis_inmemory_replica.Storage.Matching.{match_pattern_automaton}
use redis_inmemory_replica.Storage.Matching.Automaton.{glob, match_pattern_automaton-glob}

abbrev sum : Bytes → ℕ
sum [] = 0
sum (c ∷ key) = c + sum key

-- An engine of four shards.
abbrev engine : Memory
engine = new_memory (pos 3 ∷ [])

engine-IsWellFormed : IsWellFormed sum engine
engine-IsWellFormed = new_memory-IsWellFormed sum (pos 3 ∷ [])

new_memory-IsRounded_example :
    IsWellFormed sum (new_memory (negsuc 0 ∷ pos 3 ∷ []))
    × IsRounded (asked 64 (negsuc 0 ∷ pos 3 ∷ [])) (new_memory (negsuc 0 ∷ pos 3 ∷ [])).shards
new_memory-IsRounded_example =
    new_memory-IsRounded sum (negsuc 0 ∷ pos 3 ∷ []) (tt, (omega arith, tt))

abbrev written : Option (Unit {0} × Memory) → Memory
written none = engine
written (some (u, s)) = s

-- The engine with one key, which expires at 9.
abbrev filled : Memory
filled = written (store sum 1 (codes "k") (codes "v") (some 9) engine)

filled-IsWellFormed : IsWellFormed sum filled
filled-IsWellFormed =
    let (s', e, u, n) =
      store-Writes sum engine 1 (codes "k") (codes "v") (some 9) engine-IsWellFormed in
    subst (λ o. IsWellFormed sum (written o)) (sym e) u.well_formed

store-Writes_example :
    (s' : Memory) × (store sum 1 (codes "k") (codes "v") none filled ≡ some (tt, s'))
    × Writes sum filled s' (codes "k") (some (new_value sum 1 (codes "v") none))
    × (s'.notified
        ≡ filled.notified ++ map (λ o. (o, key_set (codes "k") (codes "v"))) filled.observers)
store-Writes_example = store-Writes sum filled 1 (codes "k") (codes "v") none filled-IsWellFormed

get-refines_example :
    (s' : Memory) × (get sum 4 5 (codes "k") filled
      ≡ some (reply (live 4 (view sum filled filled.current_db (codes "k"))), s'))
    × SameLive sum 4 filled s'
get-refines_example = get-refines sum filled 4 5 (codes "k") filled-IsWellFormed (omega arith)

get-store_example :
    (s' : Memory) × (store sum 1 (codes "k") (codes "v") (some 9) filled ≡ some (tt, s'))
    × ((j : Bytes)
        → (s'' : Memory) × (get sum 5 6 j s'
            ≡ some (
              if bytes_eq (codes "k") j
                  then (if passed 5 (some 9) then none else some (codes "v"))
                  else reply (live 5 (view sum filled filled.current_db j)),
              s'',
            )))
get-store_example =
    get-store sum filled 1 5 6 (codes "k") (codes "v") (some 9) filled-IsWellFormed (omega arith)

expire-Writes_example :
    (s' : Memory) × (expire sum 1 (codes "k") 9 filled
      ≡ some (is_live 1 (view sum filled filled.current_db (codes "k")), s'))
    × Writes sum filled s'
        (codes "k")
        (expired_at 1 9 (view sum filled filled.current_db (codes "k")))
expire-Writes_example = expire-Writes sum filled 1 9 (codes "k") filled-IsWellFormed

ttl-view_example :
    ttl sum 1 2 (codes "k") filled
    ≡ some (time_left 2 (live 1 (view sum filled filled.current_db (codes "k"))), filled)
ttl-view_example = ttl-view sum filled 1 2 (codes "k") filled-IsWellFormed

key_type-view_example :
    key_type sum 1 (codes "k") filled
    ≡ some (seen_type (live 1 (view sum filled filled.current_db (codes "k"))), filled)
key_type-view_example = key_type-view sum filled 1 (codes "k") filled-IsWellFormed

-- The automaton on "abbc" and `a*?c`.
match_pattern_automaton-glob_example :
    match_pattern_automaton (codes "abbc") (codes "a*?c") ≡ some true
unfolding glob bytes_eq
match_pattern_automaton-glob_example = match_pattern_automaton-glob (codes "abbc") (codes "a*?c")

del-Deletes_example :
    (d : ℕ) × (s' : Memory) × (del sum (codes "k" ∷ codes "z" ∷ codes "k" ∷ []) filled
      ≡ some (d, s'))
    × Deletes sum filled s' (λ j. has j (codes "k" ∷ codes "z" ∷ codes "k" ∷ [])) d
del-Deletes_example =
    del-Deletes sum filled (codes "k" ∷ codes "z" ∷ codes "k" ∷ []) filled-IsWellFormed

flush_all-view_example :
    IsWellFormed sum (flush_all filled)
    × ((n : ℕ) (key : Bytes) → view sum (flush_all filled) n key ≡ none)
flush_all-view_example = flush_all-view sum filled filled-IsWellFormed

-- The key expires between two readings.
abbrev reading : ℕ → ℕ
reading zero = 8
reading (suc i) = 10

reading-Between : Between sum filled 8 10 reading
reading-Between zero = (omega arith, omega arith)
reading-Between (suc i) = (omega arith, omega arith)

exists-live_count_example :
    (n : ℕ) × (exists sum reading (codes "k" ∷ codes "z" ∷ codes "k" ∷ []) filled
      ≡ some (n, filled))
    × (live_count sum filled 10 (codes "k" ∷ codes "z" ∷ codes "k" ∷ []) ≤ n)
    × (n ≤ live_count sum filled 8 (codes "k" ∷ codes "z" ∷ codes "k" ∷ []))
exists-live_count_example =
    exists-live_count sum filled 8 10 reading (codes "k" ∷ codes "z" ∷ codes "k" ∷ [])
      filled-IsWellFormed reading-Between
