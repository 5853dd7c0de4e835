-- ===== src/Storage/Memory/New/WellFormed.antt =====
-- A new engine is well formed, and flushing and selecting keep it so.
use mathlib.Core.Path.{subst}
use redis_inmemory_replica.Base.{
  ℕ, zero, suc, ◌+◌, ◌-◌, ◌≡◌, refl, sym, ap, ◌∙◌, true, false, inl, inr, List, [], ◌∷◌, Bytes,
  Option, none, some, ℤ, pos, negsuc, length, get_elem?, replicate, Bool-cases, arith, ltb, ◌==◌,
  ==_refl, if◌then◌else◌,
}
use redis_inmemory_replica.Storage.Map.{lookup, insert, nat_key, bytes_key}
use redis_inmemory_replica.Storage.Map.Laws.{Distinct, lookup-insert}
use redis_inmemory_replica.Storage.Memory.{Shard, Database, Memory}
use redis_inmemory_replica.Storage.Memory.Keyspace.{new_sharded_database, with_new, select_db}
use redis_inmemory_replica.Storage.Memory.WellFormed.{IsHomed, IsWellFormed}
use redis_inmemory_replica.Storage.Memory.New.{
  next_power_of2, with_shard_count, with_options, blank, with_default, new_memory,
}

pub get_elem?-replicate : (n i : ℕ) (sh : Shard) → get_elem? (replicate n []) i ≡ some sh → [] ≡ sh
get_elem?-replicate zero i sh h = cc
get_elem?-replicate (suc n) zero sh h = cc
get_elem?-replicate (suc n) (suc i) sh h = get_elem?-replicate n i sh h

length-replicate : (n : ℕ) → length (replicate {A = Shard} n []) ≡ n
length-replicate zero = refl
length-replicate (suc n) = ap suc (length-replicate n)

pub length-new : (s : Memory) → length (new_sharded_database s) ≡ s.shards
unfolding new_sharded_database
length-new s = length-replicate s.shards

IsMasked-next : (n : ℕ) → next_power_of2 n - 1 + 1 ≡ next_power_of2 n
unfolding next_power_of2
IsMasked-next n = ground arith

with_shard_count-masked :
    (count : ℤ) (s : Memory)
    → s.shard_mask + 1 ≡ s.shards
    → (with_shard_count count s).shard_mask + 1 ≡ (with_shard_count count s).shards
unfolding with_shard_count
with_shard_count-masked (negsuc n) s h = h
with_shard_count-masked (pos n) s h = elim (Bool-cases (ltb 0 n)) [
  | inl on ↦ rw on (IsMasked-next n)
  | inr off ↦ rw off h
]

with_options-masked :
    (counts : List ℤ) (s : Memory)
    → s.shard_mask + 1 ≡ s.shards
    → (with_options counts s).shard_mask + 1 ≡ (with_options counts s).shards
unfolding with_options
with_options-masked [] s h = h
with_options-masked (c ∷ counts) s h =
    with_options-masked counts (with_shard_count c s) (with_shard_count-masked c s h)

module _ (hash : Bytes → ℕ) where
  pub new-IsHomed : (mask : ℕ) (s : Memory) → IsHomed hash mask (new_sharded_database s)
  unfolding new_sharded_database lookup
  new-IsHomed mask s = record {
    distinct = λ i sh e. subst (λ t. Distinct t) (get_elem?-replicate s.shards i sh e) tt;
    home = λ i sh key v e f.
        absurd (
          subst (λ t. lookup key t ≡ some v → ⊥) (get_elem?-replicate s.shards i sh e) (λ g. cc) f);
  }

  -- A well-formed engine that is given a new database under a number.
  added-IsWellFormed :
      (s : Memory) (n : ℕ)
      → s.shard_mask + 1 ≡ s.shards
      → ((m : ℕ) (db : Database) → lookup m s.databases ≡ some db → length db ≡ s.shards)
      → ((m : ℕ) (db : Database) → lookup m s.databases ≡ some db → IsHomed hash s.shard_mask db)
      → IsWellFormed hash
          (record s { databases = insert n (new_sharded_database s) s.databases; current_db = n })
  added-IsWellFormed s n masked sized homed = record {
    masked = masked;
    current = (new_sharded_database s, here n ∙ rw (==_refl n) refl);
    sized = λ m db e. elim (Bool-cases (n == m)) [
      | inl on ↦ subst (λ d. length d ≡ s.shards) (hit m db on e) (length-new s)
      | inr off ↦ sized m db (miss m db off e)
    ];
    homed = λ m db e. elim (Bool-cases (n == m)) [
      | inl on ↦
          subst (λ d. IsHomed hash s.shard_mask d) (hit m db on e) (new-IsHomed s.shard_mask s)
      | inr off ↦ homed m db (miss m db off e)
    ];
  }
    where
      here :
          (m : ℕ)
          → lookup m (insert n (new_sharded_database s) s.databases)
            ≡ (if n == m then some (new_sharded_database s) else lookup m s.databases)
      here m = lookup-insert n m (new_sharded_database s) s.databases

      hit :
          (m : ℕ) (db : Database)
          → (n == m) ≡ true
          → lookup m (insert n (new_sharded_database s) s.databases) ≡ some db
          → new_sharded_database s ≡ db
      hit m db on e =
          let p : some (new_sharded_database s) ≡ some db =
            sym (
              here m
              ∙ ap (λ b. if b then some (new_sharded_database s) else lookup m s.databases) on)
            ∙ e in
          cc

      miss :
          (m : ℕ) (db : Database)
          → (n == m) ≡ false
          → lookup m (insert n (new_sharded_database s) s.databases) ≡ some db
          → lookup m s.databases ≡ some db
      miss m db off e =
          sym (
            here m
            ∙ ap (λ b. if b then some (new_sharded_database s) else lookup m s.databases) off)
          ∙ e

  -- An option changes neither the databases nor the current one.
  with_shard_count-same :
      (c : ℤ) (s : Memory)
      → ((with_shard_count c s).databases ≡ s.databases)
        × ((with_shard_count c s).current_db ≡ s.current_db)
  unfolding with_shard_count
  with_shard_count-same (negsuc n) s = (refl, refl)
  with_shard_count-same (pos n) s = elim (Bool-cases (ltb 0 n)) [
    | inl on ↦ rw on (refl, refl)
    | inr off ↦ rw off (refl, refl)
  ]

  with_options-same :
      (counts : List ℤ) (s : Memory)
      → ((with_options counts s).databases ≡ s.databases)
        × ((with_options counts s).current_db ≡ s.current_db)
  unfolding with_options
  with_options-same [] s = (refl, refl)
  with_options-same (c ∷ counts) s =
      let rest = with_options-same counts (with_shard_count c s) in
      let one = with_shard_count-same c s in (rest.0 ∙ one.0, rest.1 ∙ one.1)

  no_database :
      (counts : List ℤ) (m : ℕ) (db : Database)
      → lookup m (with_options counts blank).databases ≡ some db
      → ⊥
  no_database counts m db e =
      let e' : lookup m [] ≡ some db =
        sym (ap (lookup m) ((with_options-same counts blank).0)) ∙ e in
      unfold lookup in cc

  -- What `NewMemory` makes is well formed, where its counts can be allocated.
  pub new_memory-IsWellFormed : (counts : List ℤ) → IsWellFormed hash (new_memory counts)
  unfolding new_memory
  new_memory-IsWellFormed counts =
      subst
        (λ n.
          IsWellFormed hash (record (with_default (with_options counts blank)) { current_db = n }))
        (sym ((with_options-same counts blank).1))
        (added-IsWellFormed (with_options counts blank) 0 (with_options-masked counts blank refl)
          (λ m db e. absurd (no_database counts m db e))
          (λ m db e. absurd (no_database counts m db e)))

  -- `SelectDB` keeps the engine well formed, with a number in range and with one out of range.
  pub select_db-IsWellFormed :
      (s : Memory) (db : ℤ) → IsWellFormed hash s → IsWellFormed hash (select_db db s).0
  unfolding select_db
  select_db-IsWellFormed s (negsuc n) w = w
  select_db-IsWellFormed s (pos n) w = elim (Bool-cases (ltb 15 n)) [
    | inl big ↦ rw big w
    | inr small ↦ rw small (made (lookup n s.databases) refl)
  ]
    where
      made :
          (o : Option Database)
          → lookup n s.databases ≡ o
          → IsWellFormed hash (record (with_new n o s) { current_db = n })
      made none e = added-IsWellFormed s n w.masked w.sized w.homed
      made (some d) e = record {
        masked = w.masked;
        current = (d, e);
        sized = w.sized;
        homed = w.homed;
      }
