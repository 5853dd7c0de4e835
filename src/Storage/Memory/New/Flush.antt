-- ===== src/Storage/Memory/New/Flush.antt =====
-- `FlushAll` against the abstract view.
use mathlib.Core.Path.{subst}
use redis_inmemory_replica.Base.{
  ℕ, ◌≡◌, refl, sym, ap, ◌∙◌, inl, inr, [], ◌∷◌, Bytes, Option, none, some, length, get_elem?,
  Bool-cases, ◌==◌,
}
use redis_inmemory_replica.Storage.Map.{Map, lookup, nat_key, bytes_key}
use redis_inmemory_replica.Storage.Memory.{Shard, Database, Memory, key_hash}
use redis_inmemory_replica.Storage.Memory.Keyspace.{new_sharded_database, flush_each, flush_all}
use redis_inmemory_replica.Storage.Memory.WellFormed.{
  IsHomed, IsWellFormed, in_shard, in_database, view,
}
use redis_inmemory_replica.Storage.Memory.New.WellFormed.{
  get_elem?-replicate, length-new, new-IsHomed,
}

-- A new database in the place of one that is there.
abbrev renewed : Memory → Option Database → Option Database
renewed s none = none
renewed s (some db) = some (new_sharded_database s)

lookup-flush_each :
    (s : Memory) (n : ℕ) (dbs : Map ℕ Database)
    → lookup n (flush_each s dbs) ≡ renewed s (lookup n dbs)
unfolding lookup
lookup-flush_each s n [] = refl
lookup-flush_each s n ((m, db) ∷ dbs) = elim (Bool-cases (m == n)) [
  | inl on ↦ rw on refl
  | inr off ↦ rw off (lookup-flush_each s n dbs)
]

renewed-some :
    (s : Memory) (o : Option Database) (db : Database)
    → renewed s o ≡ some db
    → new_sharded_database s ≡ db
renewed-some s none db e = cc
renewed-some s (some d) db e = cc

module _ (hash : Bytes → ℕ) where
  pub in_database-new :
      (s : Memory) (i : ℕ) (key : Bytes)
      → in_database hash i key (some (new_sharded_database s)) ≡ none
  unfolding new_sharded_database
  in_database-new s i key = split (get_elem? (new_sharded_database s) i) refl
    where
      split :
          (o : Option Shard) → get_elem? (new_sharded_database s) i ≡ o → in_shard hash key o ≡ none
      split none e = refl
      split (some sh) e =
          subst (λ t. lookup key t ≡ none) (get_elem?-replicate s.shards i sh e)
            (unfold lookup in refl)

  in_database-renewed :
      (s : Memory) (i : ℕ) (key : Bytes) (o : Option Database)
      → in_database hash i key (renewed s o) ≡ none
  in_database-renewed s i key none = refl
  in_database-renewed s i key (some db) = in_database-new s i key

  new_of :
      (s : Memory) (n : ℕ) (db : Database)
      → lookup n (flush_all s).databases ≡ some db
      → new_sharded_database s ≡ db
  unfolding flush_all
  new_of s n db e =
      renewed-some s (lookup n s.databases) db (sym (lookup-flush_each s n s.databases) ∙ e)

  -- On a well-formed engine `FlushAll` leaves no key in any database, and the engine stays well formed.
  pub flush_all-view :
      (s : Memory)
      → IsWellFormed hash s
      → IsWellFormed hash (flush_all s)
        × ((n : ℕ) (key : Bytes) → view hash (flush_all s) n key ≡ none)
  unfolding flush_all view
  flush_all-view s w = (
    record {
      masked = w.masked;
      current = (
        new_sharded_database s,
        lookup-flush_each s s.current_db s.databases ∙ ap (renewed s) w.current.1,
      );
      sized = λ n db e. subst (λ d. length d ≡ s.shards) (new_of s n db e) (length-new s);
      homed = λ n db e.
          subst (λ d. IsHomed hash s.shard_mask d) (new_of s n db e)
            (new-IsHomed hash s.shard_mask s);
    },
    λ n key.
        ap (in_database hash (key_hash hash (flush_all s) key) key)
          (lookup-flush_each s n s.databases)
        ∙ in_database-renewed s (key_hash hash (flush_all s) key) key (lookup n s.databases),
  )
