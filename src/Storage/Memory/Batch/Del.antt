-- ===== src/Storage/Memory/Batch/Del.antt =====
-- `Del` against the abstract view, through the groups of its keys by shard.
use redis_inmemory_replica.Base.{
  ℕ, ◌+◌, ◌≡◌, refl, sym, ap, ◌∙◌, Bool, false, ◌&&◌, ◌||◌, inl, inr, List, [], ◌∷◌, Bytes, Option,
  none, some, arith, Bool-cases, bytes_eq, bytes_eq→eq, ◌==◌, if◌then◌else◌,
}
use redis_inmemory_replica.Storage.Map.{Map, lookup, delete, bytes_key, nat_key}
use redis_inmemory_replica.Storage.Value.{Value}
use redis_inmemory_replica.Storage.Memory.{Memory, key_deleted, notify, key_hash, database, shard}
use redis_inmemory_replica.Storage.Memory.WellFormed.{IsWellFormed, view, Opened, open_shard-Opened}
use redis_inmemory_replica.Storage.Memory.Update.{delete-Writes, put_at, put-ok, told, told-Writes}
use redis_inmemory_replica.Storage.Memory.Count.{size, size-delete}
use redis_inmemory_replica.Storage.Memory.Batch.Groups.{
  has, in_groups, Homed, Homed-mask, AllHomed, AllHomed-mask, group_keys-AllHomed,
  in_groups-group_keys,
}
use redis_inmemory_replica.Storage.Memory.Batch.{
  group_keys, del_present, del_key, del_group, del_groups, del,
}

module _ (hash : Bytes → ℕ) where
  -- `s'` is `s` without the keys that `gone` names in the current database, which were `d` entries.
  pub record Deletes (s s' : Memory) (gone : Bytes → Bool) (d : ℕ) : Type 0 where
    pub well_formed : IsWellFormed hash s'
    pub same_db : s'.current_db ≡ s.current_db
    pub same_mask : s'.shard_mask ≡ s.shard_mask
    pub views :
        (n : ℕ) (j : Bytes)
        → view hash s' n j ≡ (if (s.current_db == n) && gone j then none else view hash s n j)
    pub sizes : size s' + d ≡ size s

  -- The call at `s` ends with `n` more than it was given.
  abbrev Removes : Memory → Option (ℕ × Memory) → ℕ → (Bytes → Bool) → Type 0
  Removes s r n gone = (d : ℕ) × (s' : Memory) × (r ≡ some (n + d, s')) × Deletes s s' gone d

  Deletes-trans :
      (s t u : Memory) (g h : Bytes → Bool) (d e : ℕ)
      → Deletes s t g d
      → Deletes t u h e
      → Deletes s u (λ j. g j || h j) (d + e)
  Deletes-trans s t u g h d e p q = record {
    well_formed = q.well_formed;
    same_db = q.same_db ∙ p.same_db;
    same_mask = q.same_mask ∙ p.same_mask;
    views = λ n j.
        q.views n j
        ∙ rw (p.views n j, p.same_db) (both (s.current_db == n) (g j) (h j) (view hash s n j));
    sizes = omega (arith, p.sizes, q.sizes);
  }
    where
      both :
          (c a b : Bool) (v : Option Value)
          → (if c && b then none else (if c && a then none else v))
            ≡ (if c && (a || b) then none else v)
      both c a b v = ground arith

  module _ (s : Memory) (key : Bytes) (w : IsWellFormed hash s) (o : Opened hash s key) where
    absent-Deletes : lookup key o.sh ≡ none → Deletes s s (λ j. bytes_eq key j) 0
    absent-Deletes e = record {
      well_formed = w;
      same_db = refl;
      same_mask = refl;
      views = λ n j. same n j;
      sizes = omega arith;
    }
      where
        here : view hash s s.current_db key ≡ none
        here = sym o.shows ∙ e

        same :
            (n : ℕ) (j : Bytes)
            → view hash s n j
              ≡ (if (s.current_db == n) && bytes_eq key j then none else view hash s n j)
        same n j = elim (Bool-cases ((s.current_db == n) && bytes_eq key j)) [
          | inl on ↦
              let p : s.current_db ≡ n = ground arith in
              let q : key ≡ j = bytes_eq→eq key j (ground arith) in rw (on, sym p, sym q) here
          | inr off ↦ rw off refl
        ]

    removed : Memory
    removed = told hash (put_at hash s key w o (delete key o.sh)) (key_deleted key)

    present-Deletes :
        (v : Value) → lookup key o.sh ≡ some v → Deletes s removed (λ j. bytes_eq key j) 1
    unfolding removed
    present-Deletes v e =
        let u = told-Writes hash s _ key none (key_deleted key) (delete-Writes hash s key w o) in
        record {
          well_formed = u.well_formed;
          same_db = u.same_db;
          same_mask = u.same_mask;
          views = u.views;
          sizes = unfold size in size-delete hash s key w o v e;
        }

    del_present-Removes :
        (v : Option Value)
        → lookup key o.sh ≡ v
        → Removes s (del_present (key_hash hash s key) key o.sh v s) 0 (λ j. bytes_eq key j)
    unfolding notify removed
    del_present-Removes none e = (0, s, refl, absent-Deletes e)
    del_present-Removes (some v) e =
        (1, removed, rw (put-ok hash s key w o (delete key o.sh)) refl, present-Deletes v e)

  del_key-Removes :
      (s : Memory) (key : Bytes)
      → IsWellFormed hash s
      → Removes s (del_key (key_hash hash s key) key s) 0 (λ j. bytes_eq key j)
  unfolding del_key database shard
  del_key-Removes s key w =
      let o = open_shard-Opened hash s key w in
      let (d, s', run, p) = del_present-Removes s key w o (lookup key o.sh) refl in
      (d, s', rw (o.is_current, o.is_shard) run, p)

  nothing-Deletes : (s : Memory) → IsWellFormed hash s → Deletes s s (λ j. false) 0
  nothing-Deletes s w = record {
    well_formed = w;
    same_db = refl;
    same_mask = refl;
    views = λ n j. never (s.current_db == n) (view hash s n j);
    sizes = omega arith;
  }
    where
      never : (c : Bool) (v : Option Value) → v ≡ (if c && false then none else v)
      never c v = ground arith

  del_group-Removes :
      (s : Memory) (i : ℕ) (keys : List Bytes) (n : ℕ)
      → IsWellFormed hash s
      → Homed hash s i keys
      → Removes s (del_group i keys n s) n (λ j. has j keys)
  unfolding del_group
  del_group-Removes s i [] n w h =
      let e : n ≡ n + 0 = omega arith in (0, s, ap (λ m. some (m, s)) e, nothing-Deletes s w)
  del_group-Removes s i (key ∷ keys) n w h =
      let (d, t, run, p) = del_key-Removes s key w in
      let (e, u, run', q) =
        del_group-Removes t i keys (n + d) p.well_formed
          (Homed-mask hash s t i keys p.same_mask h.1) in
      let zero_add : 0 + d ≡ d = omega arith in
      let here : del_key i key s ≡ some (d, t) =
        ap (λ k. del_key k key s) (sym h.0) ∙ run ∙ ap (λ m. some (m, t)) zero_add in
      let assoc : (n + d) + e ≡ n + (d + e) = omega arith in
      (
        d + e,
        u,
        rw here run' ∙ ap (λ m. some (m, u)) assoc,
        Deletes-trans s t u (λ j. bytes_eq key j) (λ j. has j keys) d e p q,
      )

  del_groups-Removes :
      (s : Memory) (groups : Map ℕ (List Bytes)) (n : ℕ)
      → IsWellFormed hash s
      → AllHomed hash s groups
      → Removes s (del_groups groups n s) n (λ j. in_groups j groups)
  unfolding del_groups
  del_groups-Removes s [] n w h =
      let e : n ≡ n + 0 = omega arith in (0, s, ap (λ m. some (m, s)) e, nothing-Deletes s w)
  del_groups-Removes s ((i, keys) ∷ groups) n w h =
      let (d, t, run, p) = del_group-Removes s i keys n w h.0 in
      let (e, u, run', q) =
        del_groups-Removes t groups (n + d) p.well_formed
          (AllHomed-mask hash s t groups p.same_mask h.1) in
      let assoc : (n + d) + e ≡ n + (d + e) = omega arith in
      (
        d + e,
        u,
        rw run run' ∙ ap (λ m. some (m, u)) assoc,
        Deletes-trans s t u (λ j. has j keys) (λ j. in_groups j groups) d e p q,
      )

  -- On a well-formed engine `Del` removes the keys that it is given from the current database and
  -- nothing else, keys that are given twice or are not there included; it returns by how many entries
  -- the database has shrunk, and the engine stays well formed.
  pub del-Deletes :
      (s : Memory) (keys : List Bytes)
      → IsWellFormed hash s
      → (d : ℕ) × (s' : Memory) × (del hash keys s ≡ some (d, s'))
        × Deletes s s' (λ j. has j keys) d
  unfolding del
  del-Deletes s keys w =
      let groups = group_keys hash s keys [] in
      let (d, s', run, p) =
        del_groups-Removes s groups 0 w (group_keys-AllHomed hash s keys [] tt) in
      let zero_add : 0 + d ≡ d = omega arith in
      (d, s', run ∙ ap (λ m. some (m, s')) zero_add, same_keys s' d p)
    where
      or_false : (a : Bool) → a || false ≡ a
      or_false a = ground arith

      only : (j : Bytes) → in_groups j (group_keys hash s keys []) ≡ has j keys
      only j = in_groups-group_keys hash s j keys [] ∙ or_false (has j keys)

      same_keys :
          (s' : Memory) (d : ℕ)
          → Deletes s s' (λ j. in_groups j (group_keys hash s keys [])) d
          → Deletes s s' (λ j. has j keys) d
      same_keys s' d p = record {
        well_formed = p.well_formed;
        same_db = p.same_db;
        same_mask = p.same_mask;
        views = λ n j.
            p.views n j
            ∙ ap (λ b. if (s.current_db == n) && b then none else view hash s n j) (only j);
        sizes = p.sizes;
      }
