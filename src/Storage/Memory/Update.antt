-- ===== src/Storage/Memory/Update.antt =====
-- A write at one key: the rule that the methods on single keys share.
use redis_inmemory_replica.Base.{
  ℕ, ◌≡◌, refl, sym, ap, ◌∙◌, true, ◌&&◌, inl, inr, List, ◌++◌, Bytes, Option, none, some, set, map,
  arith, Bool-cases, bytes_eq, bytes_eq→eq, ◌==◌, if◌then◌else◌,
}
use redis_inmemory_replica.Storage.Map.{lookup, insert, delete, nat_key, bytes_key}
use redis_inmemory_replica.Storage.Map.Laws.{
  Distinct, Distinct-insert, Distinct-delete, lookup-insert, lookup-delete,
}
use redis_inmemory_replica.Storage.Value.{Value}
use redis_inmemory_replica.Storage.Memory.{
  Shard, Memory, Event, with_database, write_shard, key_hash,
}
use redis_inmemory_replica.Storage.Memory.WellFormed.{
  IsWellFormed, view, Opened, notify-IsWellFormed, write_shard-ok,
}
use redis_inmemory_replica.Storage.Memory.Shards.{view-write, write-IsWellFormed}

module _ (hash : Bytes → ℕ) where
  -- `s'` is `s` with `r` under the key in the current database, and is well formed.
  pub record Writes (s s' : Memory) (key : Bytes) (r : Option Value) : Type 0 where
    pub well_formed : IsWellFormed hash s'
    pub same_db : s'.current_db ≡ s.current_db
    pub same_mask : s'.shard_mask ≡ s.shard_mask
    pub views :
        (n : ℕ) (j : Bytes)
        → view hash s' n j ≡ (if (s.current_db == n) && bytes_eq key j then r else view hash s n j)

  module _ (s : Memory) (key : Bytes) (w : IsWellFormed hash s) (o : Opened hash s key) (sh : Shard)
      (r : Option Value)
      (law : (j : Bytes) → lookup j sh ≡ (if bytes_eq key j then r else lookup j o.sh)) where
    i : ℕ
    i = key_hash hash s key

    same_hash : (j : Bytes) → bytes_eq key j ≡ true → key_hash hash s j ≡ i
    unfolding i
    same_hash j e = ap (key_hash hash s) (sym (bytes_eq→eq key j e))

    at_home : (j : Bytes) (v : Value) → lookup j sh ≡ some v → key_hash hash s j ≡ i
    unfolding i key_hash
    at_home j v e = elim (Bool-cases (bytes_eq key j)) [
      | inl same ↦ same_hash j same
      | inr other ↦
          (w.homed s.current_db o.db o.is_current).home (key_hash hash s key) o.sh j v o.is_shard
            (sym (law j ∙ rw other) ∙ e)
    ]

    shown : (j : Bytes) → key_hash hash s j ≡ i → lookup j o.sh ≡ view hash s s.current_db j
    unfolding i view
    shown j e = rw (o.is_current, e, o.is_shard)

    view-law :
        (n : ℕ) (j : Bytes)
        → view hash (with_database s (set o.db i sh)) n j
          ≡ (if (s.current_db == n) && bytes_eq key j then r else view hash s n j)
    unfolding i
    view-law n j =
        view-write hash s o.db i o.sh sh o.is_current o.is_shard n j
        ∙ ground (arith, law j, same_hash j, shown j)

    pub write-Writes :
        Distinct sh → Writes s (with_database s (set o.db (key_hash hash s key) sh)) key r
    unfolding i
    write-Writes d = record {
      well_formed = write-IsWellFormed hash s o.db i o.sh sh o.is_current o.is_shard w d at_home;
      same_db = refl;
      same_mask = refl;
      views = view-law;
    }

  pub Distinct-Opened :
      (s : Memory) (key : Bytes) → IsWellFormed hash s → (o : Opened hash s key) → Distinct o.sh
  Distinct-Opened s key w o =
      (w.homed s.current_db o.db o.is_current).distinct (key_hash hash s key) o.sh o.is_shard

  -- The two writes of the program.
  module _ (s : Memory) (key : Bytes) (w : IsWellFormed hash s) (o : Opened hash s key) where
    abbrev pub put_at : Shard → Memory
    put_at sh = with_database s (set o.db (key_hash hash s key) sh)

    pub insert-Writes : (v : Value) → Writes s (put_at (insert key v o.sh)) key (some v)
    insert-Writes v =
        write-Writes s key w o (insert key v o.sh) (some v) (λ j. lookup-insert key j v o.sh)
          (Distinct-insert key v o.sh (Distinct-Opened s key w o))

    pub delete-Writes : Writes s (put_at (delete key o.sh)) key none
    delete-Writes =
        write-Writes s key w o (delete key o.sh) none (λ j. lookup-delete key j o.sh)
          (Distinct-delete key o.sh (Distinct-Opened s key w o))

    pub put-ok : (sh : Shard) → write_shard (key_hash hash s key) sh s ≡ some (tt, put_at sh)
    put-ok sh = write_shard-ok s o.db (key_hash hash s key) sh o.is_current

  abbrev pub told : Memory → Event → Memory
  told s e = record s { notified = s.notified ++ map (λ (o : ℕ). (o, e)) s.observers }

  view-notified :
      (s : Memory) (e : List (ℕ × Event)) (n : ℕ) (j : Bytes)
      → view hash (record s { notified = e }) n j ≡ view hash s n j
  unfolding view key_hash
  view-notified s e n j = refl

  -- Telling the observers changes nothing else.
  pub told-Writes :
      (s s' : Memory) (key : Bytes) (r : Option Value) (e : Event)
      → Writes s s' key r
      → Writes s (told s' e) key r
  told-Writes s s' key r e u = record {
    well_formed = notify-IsWellFormed hash s' _ u.well_formed;
    same_db = u.same_db;
    same_mask = u.same_mask;
    views = λ n j. view-notified s' _ n j ∙ u.views n j;
  }
