-- ===== src/Storage/Memory/Frame.antt =====
-- The methods that write change the current database only.
use redis_inmemory_replica.Base.{
  ℕ, zero, suc, ◌+◌, ◌≡◌, ◌≢◌, refl, ap, ◌∙◌, Bool, true, false, List, [], ◌∷◌, Bytes, Option, none,
  some, ℤ, pos, negsuc, get_elem?, set, ltb, leb, ◌==◌, length, take, arith, if◌then◌else◌,
}
use mathlib.Core.Path.{subst}
use redis_inmemory_replica.Storage.Map.{Map, lookup, insert, delete, bytes_key, nat_key}
use redis_inmemory_replica.Storage.Map.Laws.{lookup-insert}
use redis_inmemory_replica.Storage.Value.{Value}
use redis_inmemory_replica.Storage.Memory.{
  Shard, Database, Memory, Event, M, pure, found, ◌>>=◌, ◌>>◌, continue, database, shard,
  all_shards, with_database, write_shard, notify, key_hash, open_shard, key_deleted, key_set,
}
use redis_inmemory_replica.Storage.Memory.Keyspace.{usage_of, memory_usage}
use redis_inmemory_replica.Storage.Memory.Evict.{
  first_key, evict_key, evict_one, evict_round, evict_rounds, evict_lru, over_limit, enforce_limit,
}
use redis_inmemory_replica.Storage.Memory.Access.{store, set_key, new_value}
use redis_inmemory_replica.Storage.Memory.Batch.{
  group_keys, del_present, del_key, del_group, del_groups, del,
}

-- `s'` is `s` but for the current database.
pub record Frame (s s' : Memory) : Type 0 where
  pub same_db : s'.current_db ≡ s.current_db
  pub others : (n : ℕ) → n ≢ s.current_db → lookup n s'.databases ≡ lookup n s.databases

Frame-refl : (s : Memory) → Frame s s
Frame-refl s = record { same_db = refl; others = λ n h. refl }

Frame-trans : (s t u : Memory) → Frame s t → Frame t u → Frame s u
Frame-trans s t u f g = record {
  same_db = g.same_db ∙ f.same_db;
  others = λ n h. g.others n (λ e. h (e ∙ f.same_db)) ∙ f.others n h;
}

module _ {A : Type 0} where
  abbrev pub IsLocal : M A → Type 0
  IsLocal m = (s : Memory) (a : A) (s' : Memory) → m s ≡ some (a, s') → Frame s s'

  pure-IsLocal : (a : A) → IsLocal (pure a)
  pure-IsLocal a s b s' e = let p : s ≡ s' = cc in subst (λ t. Frame s t) p (Frame-refl s)

  if-IsLocal : (b : Bool) (m n : M A) → IsLocal m → IsLocal n → IsLocal (if b then m else n)
  if-IsLocal true m n f g = f
  if-IsLocal false m n f g = g

  if-Frame :
      (b : Bool) (m n : M A)
      → IsLocal m
      → IsLocal n
      → (s : Memory) (a : A) (s' : Memory) → (if b then m s else n s) ≡ some (a, s')
      → Frame s s'
  if-Frame true m n f g = f
  if-Frame false m n f g = g

  found-IsLocal : (o : Option A) → IsLocal (λ s. found s o)
  found-IsLocal none s b s' e = cc
  found-IsLocal (some a) s b s' e = pure-IsLocal a s b s' e

module _ {A B : Type 0} where
  continue-Frame :
      (s : Memory) (o : Option (A × Memory)) (f : A → M B)
      → ((a : A) (t : Memory) → o ≡ some (a, t) → Frame s t)
      → ((a : A) → IsLocal (f a))
      → (b : B) (s' : Memory) → continue o f ≡ some (b, s')
      → Frame s s'
  continue-Frame s none f p q b s' e = cc
  continue-Frame s (some (a, t)) f p q b s' e = Frame-trans s t s' (p a t refl) (q a t b s' e)

  bind-IsLocal : (m : M A) (f : A → M B) → IsLocal m → ((a : A) → IsLocal (f a)) → IsLocal (m >>= f)
  bind-IsLocal m f p q s = continue-Frame s (m s) f (λ a t. p s a t) q

database-IsLocal : IsLocal database
unfolding database
database-IsLocal s = found-IsLocal (lookup s.current_db s.databases) s

shard-IsLocal : (i : ℕ) (db : Database) → IsLocal (shard i db)
unfolding shard
shard-IsLocal i db s = found-IsLocal (get_elem? db i) s

notify-IsLocal : (e : Event) → IsLocal (notify e)
unfolding notify
notify-IsLocal e s a s' h =
    let p : record s { notified = _ } ≡ s' = ap (λ o. elim o [ none ↦ s | some r ↦ r.1 ]) h in
    subst (λ t. Frame s t) p (record { same_db = refl; others = λ n k. refl })

with_database-Frame : (s : Memory) (db : Database) → Frame s (with_database s db)
with_database-Frame s db = record {
  same_db = refl;
  others = λ n h. lookup-insert s.current_db n db s.databases ∙ other n h;
}
  where
    other :
        (n : ℕ)
        → n ≢ s.current_db
        → (if s.current_db == n then some db else lookup n s.databases) ≡ lookup n s.databases
    other n h = ground arith

write_shard-IsLocal : (i : ℕ) (sh : Shard) → IsLocal (write_shard i sh)
unfolding write_shard
write_shard-IsLocal i sh = bind-IsLocal database _ database-IsLocal written
  where
    written : (db : Database) → IsLocal (λ s. some (tt, with_database s (set db i sh)))
    written db s a s' h =
        let p : with_database s (set db i sh) ≡ s' =
          ap (λ o. elim o [ none ↦ s | some r ↦ r.1 ]) h in
        subst (λ t. Frame s t) p (with_database-Frame s (set db i sh))

all_shards-IsLocal : (db : Database) → IsLocal (all_shards db)
unfolding all_shards
all_shards-IsLocal db s a s' e = cases (leb s.shards (length db)) e
  where
    given : Option (List Shard × Memory)
    given = some (take s.shards db, s)

    cases : (b : Bool) → (if b then given else none) ≡ some (a, s') → Frame s s'
    cases true h = pure-IsLocal (take s.shards db) s a s' h
    cases false h = cc

usage_of-IsLocal : (dbs : Map ℕ Database) → IsLocal (usage_of dbs)
unfolding usage_of
usage_of-IsLocal [] = pure-IsLocal 0
usage_of-IsLocal ((n, db) ∷ dbs) =
    bind-IsLocal (all_shards db) _ (all_shards-IsLocal db)
      (λ shards. bind-IsLocal (usage_of dbs) _ (usage_of-IsLocal dbs) (λ rest. pure-IsLocal _))

memory_usage-IsLocal : IsLocal memory_usage
unfolding memory_usage
memory_usage-IsLocal s = usage_of-IsLocal s.databases s

removed-IsLocal :
    (i : ℕ) (sh : Shard) (key : Bytes) (n : ℕ)
    → IsLocal (write_shard i (delete key sh) >> (notify (key_deleted key) >> pure n))
removed-IsLocal i sh key n =
    bind-IsLocal (write_shard i (delete key sh)) _ (write_shard-IsLocal i _)
      (λ u. bind-IsLocal (notify (key_deleted key)) _ (notify-IsLocal _) (λ v. pure-IsLocal n))

module _ (choose : Shard → ℕ) where
  evict_key-IsLocal :
      (i : ℕ) (sh : Shard) (n : ℕ) (o : Option Bytes) → IsLocal (evict_key choose i sh n o)
  evict_key-IsLocal i sh n none = pure-IsLocal n
  evict_key-IsLocal i sh n (some key) = removed-IsLocal i sh key (n + 1)

  evict_one-IsLocal : (i n : ℕ) → IsLocal (evict_one choose i n)
  unfolding evict_one
  evict_one-IsLocal i n = bind-IsLocal database _ database-IsLocal (λ db.
      bind-IsLocal (shard i db) _ (shard-IsLocal i db)
        (λ sh. evict_key-IsLocal i sh n (first_key choose sh)))

  evict_round-IsLocal : (f i count n : ℕ) → IsLocal (evict_round choose f i count n)
  unfolding evict_round
  evict_round-IsLocal zero i count n = pure-IsLocal n
  evict_round-IsLocal (suc f) i count n =
      if-IsLocal (ltb n count) _ (pure n)
        (bind-IsLocal (evict_one choose i n) _ (evict_one-IsLocal i n)
          (λ m. evict_round-IsLocal f (i + 1) count m))
        (pure-IsLocal n)

  started-IsLocal :
      (f : ℕ → M ℕ) (count n : ℕ)
      → ((m : ℕ) → IsLocal (f m))
      → IsLocal (λ s. continue (evict_round choose s.shards 0 count n s) f)
  started-IsLocal f count n p s =
      continue-Frame s (evict_round choose s.shards 0 count n s) f
        (λ a t h. evict_round-IsLocal s.shards 0 count n s a t h) p

  evict_rounds-IsLocal : (f count n : ℕ) → IsLocal (evict_rounds choose f count n)
  unfolding evict_rounds
  evict_rounds-IsLocal zero count n = λ s a s' e. cc
  evict_rounds-IsLocal (suc f) count n =
      if-Frame (ltb n count) _ (pure n)
        (started-IsLocal _ count n
          (λ m. if-IsLocal (m == n) (pure m) _ (pure-IsLocal m) (evict_rounds-IsLocal f count m)))
        (pure-IsLocal n)

  over_limit-IsLocal : (limit : ℕ) → IsLocal (over_limit choose limit)
  unfolding evict_lru
  over_limit-IsLocal limit = bind-IsLocal memory_usage _ memory_usage-IsLocal (λ usage.
      if-IsLocal (ltb limit usage) _ (pure tt)
        (bind-IsLocal (evict_lru choose (pos 1)) _ (evict_rounds-IsLocal 2 1 0)
          (λ n. pure-IsLocal tt))
        (pure-IsLocal tt))

  enforce_limit-IsLocal : (limit : ℤ) → IsLocal (enforce_limit choose limit)
  unfolding enforce_limit
  enforce_limit-IsLocal (pos zero) = pure-IsLocal tt
  enforce_limit-IsLocal (pos (suc limit)) = over_limit-IsLocal (suc limit)
  enforce_limit-IsLocal (negsuc n) = pure-IsLocal tt

del_present-IsLocal :
    (i : ℕ) (key : Bytes) (sh : Shard) (o : Option Value) → IsLocal (del_present i key sh o)
del_present-IsLocal i key sh none = pure-IsLocal 0
del_present-IsLocal i key sh (some v) = removed-IsLocal i sh key 1

del_key-IsLocal : (i : ℕ) (key : Bytes) → IsLocal (del_key i key)
unfolding del_key
del_key-IsLocal i key = bind-IsLocal database _ database-IsLocal (λ db.
    bind-IsLocal (shard i db) _ (shard-IsLocal i db)
      (λ sh. del_present-IsLocal i key sh (lookup key sh)))

del_group-IsLocal : (i : ℕ) (keys : List Bytes) (n : ℕ) → IsLocal (del_group i keys n)
unfolding del_group
del_group-IsLocal i [] n = pure-IsLocal n
del_group-IsLocal i (key ∷ keys) n =
    bind-IsLocal (del_key i key) _ (del_key-IsLocal i key) (λ d. del_group-IsLocal i keys (n + d))

del_groups-IsLocal : (groups : Map ℕ (List Bytes)) (n : ℕ) → IsLocal (del_groups groups n)
unfolding del_groups
del_groups-IsLocal [] n = pure-IsLocal n
del_groups-IsLocal ((i, keys) ∷ groups) n =
    bind-IsLocal (del_group i keys n) _ (del_group-IsLocal i keys n)
      (λ d. del_groups-IsLocal groups d)

module _ (hash : Bytes → ℕ) where
  pub del-IsLocal : (keys : List Bytes) → IsLocal (del hash keys)
  unfolding del
  del-IsLocal keys s = del_groups-IsLocal (group_keys hash s keys []) 0 s

  open_shard-IsLocal : (key : Bytes) → IsLocal (open_shard hash key)
  unfolding open_shard
  open_shard-IsLocal key s =
      bind-IsLocal database _ database-IsLocal
        (λ db.
          bind-IsLocal (shard (key_hash hash s key) db) _ (shard-IsLocal _ db)
            (λ sh. pure-IsLocal _))
        s

  store-IsLocal :
      (now : ℕ) (key bytes : Bytes) (expiry : Option ℕ) → IsLocal (store hash now key bytes expiry)
  unfolding store
  store-IsLocal now key bytes expiry =
      bind-IsLocal (open_shard hash key) _ (open_shard-IsLocal key) (λ p.
        bind-IsLocal (write_shard p.0 (insert key (new_value hash now bytes expiry) p.1)) _
          (write_shard-IsLocal p.0 _) (λ u. notify-IsLocal (key_set key bytes)))

  pub set_key-IsLocal :
      (choose : Shard → ℕ) (now : ℕ) (key bytes : Bytes) (expiry : Option ℕ)
      → IsLocal (set_key hash choose now key bytes expiry)
  unfolding set_key
  set_key-IsLocal choose now key bytes expiry s =
      bind-IsLocal (store hash now key bytes expiry) _ (store-IsLocal now key bytes expiry)
        (λ u. enforce_limit-IsLocal choose s.memory_limit) s
