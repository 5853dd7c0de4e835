-- ===== src/Storage/Memory/New/Select.antt =====
-- `SelectDB` against the abstract view.
use redis_inmemory_replica.Base.{
  ℕ, ◌≡◌, refl, sym, ap, ◌∙◌, inl, inr, Bytes, Option, none, some, ℤ, pos, negsuc, Bool-cases,
  ==_iff, ltb, ◌==◌, if◌then◌else◌,
}
use redis_inmemory_replica.Storage.Map.{lookup, nat_key}
use redis_inmemory_replica.Storage.Map.Laws.{lookup-insert}
use redis_inmemory_replica.Storage.Memory.{Database, Memory, key_hash}
use redis_inmemory_replica.Storage.Memory.Keyspace.{new_sharded_database, with_new, select_db}
use redis_inmemory_replica.Storage.Memory.WellFormed.{in_database, view}
use redis_inmemory_replica.Storage.Memory.New.Flush.{in_database-new}

module _ (hash : Bytes → ℕ) where
  view-with_new :
      (s : Memory) (m : ℕ) (o : Option Database) (n : ℕ) (key : Bytes)
      → lookup m s.databases ≡ o
      → view hash (with_new m o s) n key ≡ view hash s n key
  unfolding view
  view-with_new s m (some db) n key e = refl
  view-with_new s m none n key e = elim (Bool-cases (m == n)) [
    | inl on ↦
        let same : m ≡ n = (==_iff m n).0 on in
        ap (in_database hash (key_hash hash s key) key) (
          lookup-insert m n (new_sharded_database s) s.databases
          ∙ ap (λ b. if b then some (new_sharded_database s) else lookup n s.databases) on)
        ∙ in_database-new hash s (key_hash hash s key) key
        ∙ sym (
            ap (in_database hash (key_hash hash s key) key)
              (ap (λ k. lookup k s.databases) (sym same) ∙ e))
    | inr off ↦ ap (in_database hash (key_hash hash s key) key) (
        lookup-insert m n (new_sharded_database s) s.databases
        ∙ ap (λ b. if b then some (new_sharded_database s) else lookup n s.databases) off)
  ]

  -- `SelectDB` changes no key of any database.
  pub select_db-view :
      (s : Memory) (db : ℤ) (n : ℕ) (key : Bytes)
      → view hash (select_db db s).0 n key ≡ view hash s n key
  unfolding select_db view key_hash
  select_db-view s (negsuc m) n key = refl
  select_db-view s (pos m) n key = elim (Bool-cases (ltb 15 m)) [
    | inl big ↦ rw big refl
    | inr small ↦ rw small (view-with_new s m (lookup m s.databases) n key refl)
  ]
