-- ===== src/Storage/Memory/WellFormed.antt =====
-- The invariant of the engine and its abstract view: a map from databases and keys to values, in
-- which neither the shards nor the order of their entries show.
use Prim.Native.Nat.{bit_and}
use redis_inmemory_replica.Base.{
  ℕ, ◌+◌, ◌<◌, ◌≡◌, List, Bytes, Option, none, some, length, get_elem?, set, get_elem?-lt,
  bit_and-le, arith,
}
use redis_inmemory_replica.Storage.Map.{lookup, nat_key, bytes_key}
use redis_inmemory_replica.Storage.Map.Laws.{Distinct}
use redis_inmemory_replica.Storage.Value.{Value}
use redis_inmemory_replica.Storage.Memory.{
  Shard, Database, Memory, Event, database, shard, with_database, write_shard, key_hash, open_shard,
}

module _ (hash : Bytes → ℕ) where
  -- Every shard holds a key once, and only keys whose hash names the shard.
  pub record IsHomed (mask : ℕ) (db : Database) : Type 0 where
    pub distinct : (i : ℕ) (sh : Shard) → get_elem? db i ≡ some sh → Distinct sh
    pub home :
        (i : ℕ) (sh : Shard) (key : Bytes) (v : Value)
        → get_elem? db i ≡ some sh
        → lookup key sh ≡ some v
        → bit_and (hash key) mask ≡ i

  -- The current database is there, and every database has all the shards, with the keys at home.
  pub record IsWellFormed (s : Memory) : Type 0 where
    pub masked : s.shard_mask + 1 ≡ s.shards
    pub current : (db : Database) × (lookup s.current_db s.databases ≡ some db)
    pub sized : (n : ℕ) (db : Database) → lookup n s.databases ≡ some db → length db ≡ s.shards
    pub homed : (n : ℕ) (db : Database) → lookup n s.databases ≡ some db → IsHomed s.shard_mask db

  abbrev pub in_shard : Bytes → Option Shard → Option Value
  in_shard key none = none
  in_shard key (some sh) = lookup key sh

  abbrev pub in_database : ℕ → Bytes → Option Database → Option Value
  in_database i key none = none
  in_database i key (some db) = in_shard key (get_elem? db i)

  -- What stands in database `n` under the key.
  unfoldable pub view : Memory → ℕ → Bytes → Option Value
  unfolding key_hash
  view s n key = in_database (key_hash hash s key) key (lookup n s.databases)

  pub key_hash-lt : (s : Memory) (key : Bytes) → IsWellFormed s → key_hash hash s key < s.shards
  unfolding key_hash
  key_hash-lt s key w = omega (arith, w.masked, bit_and-le (hash key) s.shard_mask)

  -- What a method on a key finds first: the shard of the key, whose entry is what the view shows.
  pub record Opened (s : Memory) (key : Bytes) : Type 0 where
    pub db : Database
    pub sh : Shard
    pub is_current : lookup s.current_db s.databases ≡ some db
    pub is_shard : get_elem? db (key_hash hash s key) ≡ some sh
    pub opens : open_shard hash key s ≡ some ((key_hash hash s key, sh), s)
    pub shows : lookup key sh ≡ view s s.current_db key

  opens_lem :
      (s : Memory) (key : Bytes) (db : Database) (sh : Shard)
      → lookup s.current_db s.databases ≡ some db
      → get_elem? db (key_hash hash s key) ≡ some sh
      → open_shard hash key s ≡ some ((key_hash hash s key, sh), s)
  unfolding open_shard database shard
  opens_lem s key db sh p q = rw (p, q)

  shows_lem :
      (s : Memory) (key : Bytes) (db : Database) (sh : Shard)
      → lookup s.current_db s.databases ≡ some db
      → get_elem? db (key_hash hash s key) ≡ some sh
      → lookup key sh ≡ view s s.current_db key
  unfolding view
  shows_lem s key db sh p q = rw (p, q)

  -- On a well-formed state no method on a key panics at its start.
  pub open_shard-Opened : (s : Memory) (key : Bytes) → IsWellFormed s → Opened s key
  open_shard-Opened s key w =
      let (db, p) = w.current in
      let size : length db ≡ s.shards = w.sized s.current_db db p in
      let (sh, q) = get_elem?-lt db (key_hash hash s key) (omega (arith, key_hash-lt s key w)) in
      record {
        db = db;
        sh = sh;
        is_current = p;
        is_shard = q;
        opens = opens_lem s key db sh p q;
        shows = shows_lem s key db sh p q;
      }

  pub notify-IsWellFormed :
      (s : Memory) (e : List (ℕ × Event))
      → IsWellFormed s
      → IsWellFormed (record s { notified = e })
  notify-IsWellFormed s e w = record {
    masked = w.masked;
    current = w.current;
    sized = w.sized;
    homed = w.homed;
  }

pub write_shard-ok :
    (s : Memory) (db : Database) (i : ℕ) (sh : Shard)
    → lookup s.current_db s.databases ≡ some db
    → write_shard i sh s ≡ some (tt, with_database s (set db i sh))
unfolding write_shard database
write_shard-ok s db i sh p = rw p
