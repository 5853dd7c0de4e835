-- ===== src/Storage/Memory/Shards.antt =====
-- A write of one shard: what it changes in the view, and that it keeps the invariant.
use Prim.Native.Nat.{bit_and}
use redis_inmemory_replica.Base.{
  ℕ, ◌≡◌, sym, ◌∙◌, ◌&&◌, inl, inr, Bytes, some, get_elem?, set, get_elem?-set_self,
  get_elem?-set_ne, get_elem?-some-lt, length-set, arith, Bool-cases, ◌==◌, ==_iff, if◌then◌else◌,
}
use redis_inmemory_replica.Storage.Map.{lookup, nat_key, bytes_key}
use redis_inmemory_replica.Storage.Map.Laws.{Distinct, lookup-insert}
use redis_inmemory_replica.Storage.Value.{Value}
use redis_inmemory_replica.Storage.Memory.{Shard, Database, Memory, with_database, key_hash}
use redis_inmemory_replica.Storage.Memory.WellFormed.{IsHomed, IsWellFormed, in_shard, view}

-- The databases after a write to the current one.
lookup-with_database :
    (s : Memory) (db : Database) (n : ℕ)
    → lookup n (with_database s db).databases
      ≡ (if s.current_db == n then some db else lookup n s.databases)
lookup-with_database s db n = lookup-insert s.current_db n db s.databases

module _ (hash : Bytes → ℕ) (s : Memory) (db : Database) (i : ℕ) (old sh : Shard)
    (is_current : lookup s.current_db s.databases ≡ some db)
    (is_shard : get_elem? db i ≡ some old) where
  written :
      (key : Bytes) (j : ℕ)
      → in_shard hash key (get_elem? (set db i sh) j)
        ≡ (if j == i then lookup key sh else in_shard hash key (get_elem? db j))
  written key j = elim (Bool-cases (j == i)) [
    | inl same ↦
        let e : j ≡ i = (==_iff j i).0 same in
        rw (same, e, get_elem?-set_self db i sh (get_elem?-some-lt db i old is_shard))
    | inr other ↦ rw (other, get_elem?-set_ne db i j sh (λ e. ground arith))
  ]

  -- Only the keys of the written shard of the current database change.
  pub view-write :
      (n : ℕ) (key : Bytes)
      → view hash (with_database s (set db i sh)) n key ≡ (
          if (s.current_db == n) && (key_hash hash s key == i)
          then lookup key sh
          else view hash s n key)
  unfolding view key_hash
  view-write n key = elim (Bool-cases (s.current_db == n)) [
    | inl same ↦
        let e : s.current_db ≡ n = (==_iff s.current_db n).0 same in
        rw (
          lookup-with_database s (set db i sh) n,
          same,
          written key (bit_and (hash key) s.shard_mask),
          ← e,
          is_current,
        )
    | inr other ↦ rw (lookup-with_database s (set db i sh) n, other)
  ]

  IsHomed-write :
      IsHomed hash s.shard_mask db
      → Distinct sh
      → ((key : Bytes) (v : Value) → lookup key sh ≡ some v → bit_and (hash key) s.shard_mask ≡ i)
      → IsHomed hash s.shard_mask (set db i sh)
  IsHomed-write h d at_home = record {
    distinct = λ j t e. elim (Bool-cases (i == j)) [
      | inl same ↦
          let p : i ≡ j = (==_iff i j).0 same in
          let q : get_elem? (set db i sh) i ≡ some sh =
            get_elem?-set_self db i sh (get_elem?-some-lt db i old is_shard) in
          let r : t ≡ sh = cc in rw r d
      | inr other ↦ h.distinct j t (sym (get_elem?-set_ne db i j sh (λ p. ground arith)) ∙ e)
    ];
    home = λ j t key v e l. elim (Bool-cases (i == j)) [
      | inl same ↦
          let p : i ≡ j = (==_iff i j).0 same in
          let q : get_elem? (set db i sh) i ≡ some sh =
            get_elem?-set_self db i sh (get_elem?-some-lt db i old is_shard) in
          let r : t ≡ sh = cc in at_home key v (rw r at l) ∙ p
      | inr other ↦ h.home j t key v (sym (get_elem?-set_ne db i j sh (λ p. ground arith)) ∙ e) l
    ];
  }

  -- A shard that holds each key once, and only its own keys, can be put in place.
  pub write-IsWellFormed :
      IsWellFormed hash s
      → Distinct sh
      → ((key : Bytes) (v : Value) → lookup key sh ≡ some v → key_hash hash s key ≡ i)
      → IsWellFormed hash (with_database s (set db i sh))
  unfolding key_hash
  write-IsWellFormed w d at_home = record {
    masked = w.masked;
    current = (set db i sh, lookup-with_database s (set db i sh) s.current_db ∙ ground arith);
    sized = λ n e l. elim (Bool-cases (s.current_db == n)) [
      | inl same ↦
          let q : some (set db i sh) ≡ some e =
            rw (lookup-with_database s (set db i sh) n, same) at l in
          let r : set db i sh ≡ e = cc in
          rw (← r, length-set db i sh) (w.sized s.current_db db is_current)
      | inr other ↦ w.sized n e (rw (lookup-with_database s (set db i sh) n, other) at l)
    ];
    homed = λ n e l. elim (Bool-cases (s.current_db == n)) [
      | inl same ↦
          let q : some (set db i sh) ≡ some e =
            rw (lookup-with_database s (set db i sh) n, same) at l in
          let r : set db i sh ≡ e = cc in
          rw (← r) (IsHomed-write (w.homed s.current_db db is_current) d at_home)
      | inr other ↦ w.homed n e (rw (lookup-with_database s (set db i sh) n, other) at l)
    ];
  }
