-- ===== src/Examples/Lua.antt =====
-- The theorems of the Lua engine at concrete inputs: a digest that many scripts share.
use redis_inmemory_replica.Base.{
  ℕ, ◌≡◌, refl, [], ◌∷◌, Bytes, codes, ok, err, Option, none, some, pos, arith, length, Result,
}
use redis_inmemory_replica.Storage.Map.{lookup, insert, bytes_key}
use redis_inmemory_replica.Storage.Memory.{Shard, Memory}
use redis_inmemory_replica.Storage.Memory.New.{new_memory}
use redis_inmemory_replica.Storage.Memory.Methods.{reply}
use redis_inmemory_replica.Storage.Memory.WellFormed.{view}
use redis_inmemory_replica.Server.Items.{Item}
use redis_inmemory_replica.Lua.{
  Script, returns, fails, calls, Interpreter, Engine, new_engine, eval, with_engine, eval_sha,
  load_script,
}
use redis_inmemory_replica.Lua.Cache.{IsCache, load_script-IsCache}
use redis_inmemory_replica.Lua.Cache.Runs.{NoCollision, eval_sha-load_script}

-- A digest that many scripts share: the first byte.
abbrev first_byte : Bytes → Bytes
first_byte [] = []
first_byte (b ∷ script) = b ∷ []

abbrev cache : Engine
cache = new_engine (pos 1)

cache-IsCache : IsCache first_byte cache
cache-IsCache = record {
  listed = λ sha.
      unfold redis_inmemory_replica.Replication.Apply.member
        redis_inmemory_replica.Storage.Map.lookup in
      refl;
  digests = λ sha script h. unfold redis_inmemory_replica.Storage.Map.lookup in cc;
  distinct = tt;
  within = omega arith;
}

abbrev one_script : Engine
one_script = (load_script first_byte (codes "a") cache).1

one_script-IsCache : IsCache first_byte one_script
one_script-IsCache = load_script-IsCache first_byte (codes "a") cache cache-IsCache

-- The second script takes the place of the first.
load_script-IsCache_example : IsCache first_byte (load_script first_byte (codes "b") one_script).1
load_script-IsCache_example =
    load_script-IsCache first_byte (codes "b") one_script one_script-IsCache

abbrev answer_of : Result Bytes Item → Script
answer_of (ok item) = returns item
answer_of (err text) = fails text

-- Every script sets its first key.
abbrev setter : Interpreter
setter script (key ∷ keys) args = calls (codes "SET" ∷ key ∷ codes "v" ∷ []) answer_of
setter script [] args = returns Item.null

abbrev key_length : Bytes → ℕ
key_length = length

abbrev oldest : Shard → ℕ
oldest sh = 0

abbrev moments : ℕ → ℕ
moments i = 5

one_script_holds : lookup (codes "a") one_script.scripts ≡ some (codes "a")
unfolding lookup load_script redis_inmemory_replica.Lua.evict insert
one_script_holds = refl

one_script-NoCollision : NoCollision first_byte (codes "a") one_script
one_script-NoCollision other h = cc (one_script_holds, h)

eval_sha-load_script_example :
    (e' : Engine) × (eval_sha key_length oldest moments setter
        (load_script first_byte (codes "a") one_script).0
        (codes "k" ∷ [])
        []
        (load_script first_byte (codes "a") one_script).1
        (new_memory [])
      ≡ with_engine e'
          (eval key_length oldest moments setter (codes "a") (codes "k" ∷ []) [] (new_memory [])))
eval_sha-load_script_example =
    eval_sha-load_script first_byte key_length oldest moments setter (codes "a") (codes "k" ∷ []) []
      one_script 0 (new_memory []) one_script-IsCache
      (unfold load_script redis_inmemory_replica.Lua.evict lookup in refl) one_script-NoCollision

abbrev kept : Option (Result Bytes Item × Memory) → Option Bytes
kept none = none
kept (some (r, s)) = reply (view key_length s 0 (codes "k"))

-- A script writes to the replica.
script_writes :
    kept (eval key_length oldest moments setter (codes "a") (codes "k" ∷ []) [] (new_memory []))
    ≡ some (codes "v")
unfolding eval view new_memory
script_writes = refl
