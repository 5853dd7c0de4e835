-- ===== src/Storage/Memory/Count.antt =====
-- How many entries the current database has.
use redis_inmemory_replica.Base.{
  ℕ, zero, suc, ◌+◌, ◌≡◌, refl, ap, true, List, [], ◌∷◌, Bytes, Option, none, some, length, take,
  get_elem?, set, arith, leb, ==_refl,
}
use redis_inmemory_replica.Storage.Map.{lookup, delete, nat_key, bytes_key}
use redis_inmemory_replica.Storage.Map.Laws.{lookup-insert, length-delete}
use redis_inmemory_replica.Storage.Value.{Value}
use redis_inmemory_replica.Storage.Memory.{Shard, Database, Memory, database, all_shards, key_hash}
use redis_inmemory_replica.Storage.Memory.Keyspace.{entries, key_count}
use redis_inmemory_replica.Storage.Memory.WellFormed.{IsWellFormed, Opened}
use redis_inmemory_replica.Storage.Memory.Update.{put_at, Distinct-Opened}

abbrev entries_of : Option Database → ℕ
entries_of none = 0
entries_of (some db) = entries db

-- The entries of the current database, expired ones included.
unfoldable pub size : Memory → ℕ
size s = entries_of (lookup s.current_db s.databases)

take-all {ℓ} : {A : Type ℓ} (n : ℕ) (xs : List A) → length xs ≡ n → take n xs ≡ xs
take-all zero [] h = refl
take-all zero (x ∷ xs) h = absurd (omega arith)
take-all (suc n) [] h = refl
take-all (suc n) (x ∷ xs) h = ap (λ r. x ∷ r) (take-all n xs (omega arith))

module _ (hash : Bytes → ℕ) where
  -- On a well-formed engine `KeyCount` is the number of entries of all shards of the current database,
  -- and changes nothing.
  pub key_count-size : (s : Memory) → IsWellFormed hash s → key_count s ≡ some (size s, s)
  unfolding key_count database all_shards size
  key_count-size s w =
      let (db, p) = w.current in
      let n : length db ≡ s.shards = w.sized s.current_db db p in
      let all : leb s.shards (length db) ≡ true = ground arith in
      rw (p, all, take-all s.shards db n)

  entries-set :
      (db : Database) (i : ℕ) (old sh : Shard)
      → get_elem? db i ≡ some old
      → entries (set db i sh) + length old ≡ entries db + length sh
  unfolding entries
  entries-set [] i old sh e = cc
  entries-set (x ∷ db) zero old sh e = let p : x ≡ old = cc in rw p (omega arith)
  entries-set (x ∷ db) (suc i) old sh e = omega (arith, entries-set db i old sh e)

  pub size-put :
      (s : Memory) (key : Bytes) (w : IsWellFormed hash s) (o : Opened hash s key) (sh : Shard)
      → size (put_at hash s key w o sh) + length o.sh ≡ size s + length sh
  unfolding size
  size-put s key w o sh =
      rw
        (
          lookup-insert s.current_db s.current_db (set o.db (key_hash hash s key) sh) s.databases,
          ==_refl s.current_db,
          o.is_current,
        )
        (entries-set o.db (key_hash hash s key) o.sh sh o.is_shard)

  -- Deleting a key that is there takes one entry.
  pub size-delete :
      (s : Memory) (key : Bytes) (w : IsWellFormed hash s) (o : Opened hash s key) (v : Value)
      → lookup key o.sh ≡ some v
      → size (put_at hash s key w o (delete key o.sh)) + 1 ≡ size s
  size-delete s key w o v e = omega (
    arith,
    size-put s key w o (delete key o.sh),
    length-delete key v o.sh (Distinct-Opened hash s key w o) e,
  )
