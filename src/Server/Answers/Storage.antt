-- ===== src/Server/Answers/Storage.antt =====
-- The calls of the engine that the server makes: they return on a well-formed engine, and no client can
-- see that they were made.
use redis_inmemory_replica.Base.{
  ℕ, suc, ◌+◌, ◌≤◌, ◌≡◌, refl, ap, true, false, Bool, List, [], ◌∷◌, Bytes, some, ℤ, pos, length,
  take, arith, leb, ltb,
}
use redis_inmemory_replica.Storage.Map.{nat_key}
use redis_inmemory_replica.Storage.Memory.{Database, Memory, M, database, all_shards}
use redis_inmemory_replica.Storage.Memory.Access.{get, ttl, key_type}
use redis_inmemory_replica.Storage.Memory.Batch.{exists}
use redis_inmemory_replica.Storage.Memory.Batch.Exists.{exists-returned}
use redis_inmemory_replica.Storage.Memory.Keyspace.{keys, key_test, collect, key_count, select_db}
use redis_inmemory_replica.Storage.Memory.Scan.{scan_keys, scan_shards, scanned, max_capacity}
use redis_inmemory_replica.Storage.Memory.WellFormed.{IsWellFormed}
use redis_inmemory_replica.Storage.Memory.Methods.{live, get-refines}
use redis_inmemory_replica.Storage.Memory.Expiry.{ttl-view, key_type-view}
use redis_inmemory_replica.Storage.Memory.Count.{key_count-size}
use redis_inmemory_replica.Storage.Memory.New.WellFormed.{select_db-IsWellFormed}
use redis_inmemory_replica.Storage.Memory.New.Select.{select_db-view}
use redis_inmemory_replica.Server.Items.{Items}
use redis_inmemory_replica.Server.Data.{get_values, value_item, select_call}
use redis_inmemory_replica.Server.Answers.{Unseen-trans, Unseen-refl, Returned, Returns}

module _ (hash : Bytes → ℕ) (clock : ℕ → ℕ) where
  -- The clock does not run back between the readings of a command.
  abbrev pub Runs : Type 0
  Runs = (i : ℕ) → clock i ≤ clock (suc i)

  module _ {A : Type 0} where
    unchanged :
        (m : M A) (a : A) (s : Memory)
        → IsWellFormed hash s
        → m s ≡ some (a, s)
        → Returned hash clock s (m s)
    unchanged m a s w e = (a, s, e, Unseen-refl hash clock s w)

  pub get-Returns :
      (i : ℕ) (key : Bytes) → Runs → Returns hash clock (get hash (clock i) (clock (i + 1)) key)
  get-Returns i key runs s w =
      let step : clock i ≤ clock (i + 1) = omega (arith, runs i, ap clock (plus i)) in
      let (s', run, same) = get-refines hash s (clock i) (clock (i + 1)) key w step in
      (
        _,
        s',
        run,
        record { well_formed = same.well_formed; lives = λ n j t h. same.lives n j t (h i) },
      )
    where
      plus : (n : ℕ) → n + 1 ≡ suc n
      plus n = omega arith

  pub get_values-Returns :
      (i : ℕ) (names : List Bytes) → Runs → Returns hash clock (get_values hash clock i names)
  unfolding get_values
  get_values-Returns i [] runs s w = (Items.none, s, refl, Unseen-refl hash clock s w)
  get_values-Returns i (key ∷ names) runs s w =
      let (v, s', run, same) = get-Returns i key runs s w in
      let (vs, s'', rest, later) = get_values-Returns (i + 2) names runs s' same.well_formed in
      (
        Items.more (value_item v) vs,
        s'',
        rw (run, rest) refl,
        Unseen-trans hash clock s s' s'' same later,
      )

  pub exists-Returns : (at : ℕ → ℕ) (names : List Bytes) → Returns hash clock (exists hash at names)
  exists-Returns at names s w =
      unchanged (exists hash at names) _ s w (exists-returned hash s at names w)

  pub ttl-Returns : (now later : ℕ) (key : Bytes) → Returns hash clock (ttl hash now later key)
  ttl-Returns now later key s w =
      unchanged (ttl hash now later key) _ s w (ttl-view hash s now later key w)

  pub key_type-Returns : (now : ℕ) (key : Bytes) → Returns hash clock (key_type hash now key)
  key_type-Returns now key s w =
      unchanged (key_type hash now key) _ s w (key_type-view hash s now key w)

  pub key_count-Returns : Returns hash clock key_count
  key_count-Returns s w = unchanged key_count _ s w (key_count-size hash s w)

  pub select_call-Returns : (db : ℤ) → Returns hash clock (select_call db)
  select_call-Returns db s w = (
    (select_db db s).1,
    (select_db db s).0,
    refl,
    record {
      well_formed = select_db-IsWellFormed hash s db w;
      lives = λ n j t h. ap (live t) (select_db-view hash s db n j);
    },
  )

  -- The shards of the current database.
  shards_found :
      (s : Memory)
      → IsWellFormed hash s
      → (db : Database) × (database s ≡ some (db, s))
        × (all_shards db s ≡ some (take s.shards db, s))
  unfolding database all_shards
  shards_found s w =
      let (db, p) = w.current in
      let n : length db ≡ s.shards = w.sized s.current_db db p in
      let all : leb s.shards (length db) ≡ true = ground arith in (db, rw p refl, rw all refl)

  module _ (matches : Bytes → Bytes → Bool) (at : ℕ → ℕ) where
    pub keys-Returns : (pattern : Bytes) → Returns hash clock (keys matches at pattern)
    unfolding keys
    keys-Returns pattern s w =
        let (db, p, q) = shards_found s w in
        (
          collect at (key_test matches pattern) (take s.shards db),
          s,
          rw (p, q) refl,
          Unseen-refl hash clock s w,
        )

    pub scan_keys-Returns :
        (cursor : ℤ) (pattern : Bytes) (count : ℕ)
        → count ≤ max_capacity
        → Returns hash clock (scan_keys matches at cursor pattern (pos count))
    unfolding scan_keys
    scan_keys-Returns cursor pattern count h s w =
        let (db, p, q) = shards_found s w in
        let fits : ltb max_capacity count ≡ false = ground arith in
        (
          scanned (scan_shards matches cursor pattern count at (take s.shards db) 0 []),
          s,
          rw (fits, p, q) refl,
          Unseen-refl hash clock s w,
        )
