-- ===== src/Replication/Rdb/Load.antt =====
-- `ParseRDB` with the handler of the engine: what a snapshot leaves there.
use redis_inmemory_replica.Base.{
  ℕ, ◌≤◌, ◌≡◌, refl, ap, ◌∙◌, Bool, true, false, inl, inr, List, [], ◌∷◌, Bytes, Result, ok, err,
  Option, none, some, ℤ, pos, length, All, arith, ltb, leb, ◌==◌, Bool-cases, if◌then◌else◌,
}
use redis_inmemory_replica.Storage.Memory.{Shard, Memory}
use redis_inmemory_replica.Storage.Memory.Keyspace.{select_db}
use redis_inmemory_replica.Replication.Apply.{Outcome}
use redis_inmemory_replica.Replication.Handler.{
  RdbValue, string_value, hash_value, list_value, set_value, other_value, Handler, new_handler,
  passes, with_storage, after_select, on_ok, failed, flush_items, flush_batch, select_allowed,
  on_database, flush_full, on_value, recorded_key, pushed, on_key, on_end, on_resize_db, on_aux,
  RdbEvent, load,
}
use redis_inmemory_replica.Replication.Handler.Batching.{storage_after, direct, load-IsDirect}
use redis_inmemory_replica.Replication.Rdb.{RdbError, handler_failed}
use redis_inmemory_replica.Replication.Rdb.Strings.Encode.{text_of}
use redis_inmemory_replica.Replication.Rdb.Values.Encode.{item_value}
use redis_inmemory_replica.Replication.Rdb.Parse.{RdbHandler, Parsed, ended, parse_rdb}
use redis_inmemory_replica.Replication.Rdb.Encode.{
  Entry, database, aux, sizes, key, expiry_time, IsEntry, encode_snapshot, Quiet, IsQuiet,
  deliver_entry, deliver,
}
use redis_inmemory_replica.Replication.Rdb.RoundTrip.{IsVersion, parse_rdb-encode_snapshot}

-- The events of a snapshot that the handler acts on.
unfoldable pub entry_events : List Entry → List RdbEvent
unfolding item_value
entry_events [] = []
entry_events (database n ∷ es) = RdbEvent.database (pos n) ∷ entry_events es
entry_events (aux k v ∷ es) = entry_events es
entry_events (sizes n m ∷ es) = entry_events es
entry_events (key e k i ∷ es) =
    RdbEvent.key (text_of k) (item_value i) (expiry_time e) ∷ entry_events es

module _ (hash : Bytes → ℕ) (choose : Shard → ℕ) (now : ℕ) where
  -- `rdbStorageHandler` as an `RDBHandler`.
  abbrev pub storage_handler : RdbHandler Handler
  storage_handler = record {
    on_database = on_database hash choose now;
    on_key = on_key hash choose now;
    on_aux = on_aux;
    on_resize_db = on_resize_db;
    on_end = on_end hash choose now;
  }

  module _ (P : ℕ → ℕ → Type 0) where
    -- What is said of the size of a batch and the capacity of its slices, which the calls keep.
    abbrev Roomy : Handler → Type 0
    Roomy h = P h.batch_size h.key_cap

    -- The call did not fail, and left room.
    abbrev Safe : Outcome Handler → Type 0
    Safe none = Unit
    Safe (some (ok u, h)) = Roomy h
    Safe (some (err e, h)) = ⊥

    Safe-Quiet : (o : Outcome Handler) → Safe o → Quiet o
    Safe-Quiet none h = tt
    Safe-Quiet (some (ok u, h)) r = tt
    Safe-Quiet (some (err e, h)) r = r

    with_storage-Safe : (h : Handler) (o : Option Memory) → Roomy h → Safe (with_storage h o)
    with_storage-Safe h none r = tt
    with_storage-Safe h (some s) r = r

    flush_batch-Safe : (h : Handler) → Roomy h → Safe (flush_batch hash choose now h)
    unfolding flush_batch
    flush_batch-Safe h r = elim (Bool-cases (length h.key_batch == 0)) [
      | inl on ↦ rw on r
      | inr off ↦ rw off (
          with_storage-Safe h
            (flush_items hash choose now h.key_batch h.value_batch h.expiry_batch h.storage) r)
    ]

    flush_full-Safe : (h : Handler) → Roomy h → Safe (flush_full hash choose now h)
    unfolding flush_full
    flush_full-Safe h r = elim (Bool-cases (leb h.batch_size (length h.key_batch))) [
      | inl on ↦ rw on (flush_batch-Safe h r)
      | inr off ↦ rw off r
    ]

    on_value-Safe :
        (k : Bytes) (v : RdbValue) (e : Option ℕ) (h : Handler)
        → Roomy h
        → Safe (on_value hash choose now k v e h)
    on_value-Safe k (string_value b) e h r = flush_full-Safe (pushed hash choose now k b e h) r
    on_value-Safe k (hash_value m) e h r = r
    on_value-Safe k (list_value l) e h r = r
    on_value-Safe k (set_value m) e h r = r
    on_value-Safe k other_value e h r = r

    on_key-Safe :
        (k : Bytes) (v : RdbValue) (e : Option ℕ) (h : Handler)
        → Roomy h
        → Safe (on_key hash choose now k v e h)
    unfolding on_key
    on_key-Safe k v e h r = elim (Bool-cases (passes h.databases h.current_db)) [
      | inl on ↦ rw on (on_value-Safe k v e (recorded_key hash choose now v h) r)
      | inr off ↦ rw off r
    ]

    -- Or it failed.
    abbrev Sound : Outcome Handler → Type 0
    Sound none = Unit
    Sound (some (r, h)) = Roomy h

    Safe-Sound : (o : Outcome Handler) → Safe o → Sound o
    Safe-Sound none h = tt
    Safe-Sound (some (ok u, h)) r = r
    Safe-Sound (some (err e, h)) r = absurd r

    select_allowed-Sound :
        (index : ℤ) (h : Handler) → Roomy h → Sound (select_allowed hash choose now index h)
    select_allowed-Sound index h r = elim (Bool-cases (passes h.databases h.current_db)) [
      | inl on ↦ rw on (selected (select_db index h.storage))
      | inr off ↦ rw off r
    ]
      where
        selected : (p : Memory × Bool) → Sound (after_select h p)
        selected (s, true) = r
        selected (s, false) = r

    on_database-Sound :
        (index : ℤ) (h : Handler) → Roomy h → Sound (on_database hash choose now index h)
    unfolding on_database
    on_database-Sound index h r = flushed (flush_batch hash choose now h) (flush_batch-Safe h r)
      where
        flushed :
            (o : Outcome Handler)
            → Safe o
            → Sound (
                on_ok
                  (λ g. select_allowed hash choose now index (record g { current_db = index }))
                  failed
                  o)
        flushed none k = tt
        flushed (some (ok u, g)) k = select_allowed-Sound index (record g { current_db = index }) k
        flushed (some (err e, g)) k = absurd k

  pub storage_handler-IsQuiet : IsQuiet storage_handler
  storage_handler-IsQuiet = record {
    keys = λ k v e h. Safe-Quiet (λ a b. Unit) _ (on_key-Safe (λ a b. Unit) k v e h tt);
    auxs = λ k v h. unfold on_aux in tt;
  }

  -- Room for a whole batch.
  abbrev HasRoom : ℕ → ℕ → Type 0
  HasRoom size cap = size ≤ cap

  on_resize_db-same :
      (n m : ℕ) (h : Handler) → h.batch_size ≤ h.key_cap → on_resize_db n m h ≡ some (ok tt, h)
  unfolding on_resize_db
  on_resize_db-same n m h r =
      let e : ltb h.key_cap (if ltb h.batch_size n then h.batch_size else n) ≡ false =
        ground arith in
      rw e refl

  on_ok-same :
      (f g : Handler → Outcome Handler) (o : Outcome Handler)
      → Sound HasRoom o
      → ((h : Handler) → Roomy HasRoom h → f h ≡ g h)
      → on_ok f failed o ≡ on_ok g failed o
  on_ok-same f g none r p = refl
  on_ok-same f g (some (ok u, h)) r p = p h r
  on_ok-same f g (some (err e, h)) r p = refl

  deliver-load :
      (es : List Entry) (h : Handler)
      → h.batch_size ≤ h.key_cap
      → deliver storage_handler es h ≡ load hash choose now (entry_events es) h
  unfolding deliver deliver_entry load entry_events on_aux
  deliver-load [] h r = refl
  deliver-load (database n ∷ es) h r =
      on_ok-same (deliver storage_handler es) (load hash choose now (entry_events es))
        (on_database hash choose now (pos n) h) (on_database-Sound HasRoom (pos n) h r)
        (deliver-load es)
  deliver-load (aux k v ∷ es) h r = deliver-load es h r
  deliver-load (sizes n m ∷ es) h r =
      ap (on_ok (deliver storage_handler es) failed) (on_resize_db-same n m h r)
      ∙ deliver-load es h r
  deliver-load (key e k i ∷ es) h r =
      on_ok-same (deliver storage_handler es) (load hash choose now (entry_events es))
        (on_key hash choose now (text_of k) (item_value i) (expiry_time e) h)
        (Safe-Sound HasRoom _ (on_key-Safe HasRoom (text_of k) (item_value i) (expiry_time e) h r))
        (deliver-load es)

-- The result and the engine of a parse.
abbrev pub parsed_storage : Parsed Handler → Option (Result RdbError (Unit {0}) × Memory)
parsed_storage none = none
parsed_storage (some (r, h)) = some (r, h.storage)

-- An outcome as the parser reports it.
abbrev pub reported : Outcome Memory → Option (Result RdbError (Unit {0}) × Memory)
reported none = none
reported (some (ok u, s)) = some (ok tt, s)
reported (some (err e, s)) = some (err (handler_failed e), s)

module _ (hash : Bytes → ℕ) (choose : Shard → ℕ) (now : ℕ) where
  reported-ended :
      (o : Outcome Handler)
      → parsed_storage (ended (storage_handler hash choose now) o) ≡ reported (storage_after o)
  reported-ended none = refl
  reported-ended (some (ok u, h)) = refl
  reported-ended (some (err e, h)) = refl

  -- Parsing a snapshot that `encode_snapshot` writes, of a supported version, into the engine is setting
  -- every string of an allowed database, with its expiry, one after the other; other values, auxiliary
  -- fields and size hints change nothing. Such a snapshot has strings of at most 100000 bytes as they
  -- stand, compressed ones and integers, of which those of 8 and 16 bits are not negative; its values
  -- are those that its entries allow, and sorted sets and modules are not among them.
  pub parse_rdb-direct :
      (version : Bytes) (es : List Entry) (trailer : Bytes) (s : Memory) (dbs : List ℤ)
      → IsVersion version
      → All IsEntry es
      → parsed_storage (
          parse_rdb
            (storage_handler hash choose now)
            (encode_snapshot version es trailer)
            (new_handler s dbs))
        ≡ reported (direct hash choose now dbs (entry_events es) (pos 0) s)
  parse_rdb-direct version es trailer s dbs v p =
      ap parsed_storage (
        parse_rdb-encode_snapshot (storage_handler hash choose now) version es trailer
          (new_handler s dbs) (storage_handler-IsQuiet hash choose now) v p)
      ∙ reported-ended (deliver (storage_handler hash choose now) es (new_handler s dbs))
      ∙ ap (λ o. reported (storage_after o))
          (deliver-load hash choose now es (new_handler s dbs) (unfold new_handler in omega arith))
      ∙ ap reported (load-IsDirect hash choose now (entry_events es) s dbs)
