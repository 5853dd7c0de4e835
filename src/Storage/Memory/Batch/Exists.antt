-- ===== src/Storage/Memory/Batch/Exists.antt =====
-- `Exists` against the abstract view, through the groups of its keys by shard.
use redis_inmemory_replica.Base.{
  ℕ, ◌+◌, ◌≤◌, ◌≡◌, refl, sym, ap, ◌∙◌, inl, inr, List, [], ◌∷◌, ◌++◌, Bytes, Option, none, some,
  length, arith, Bool-cases, ◌==◌, if◌then◌else◌,
}
use redis_inmemory_replica.Storage.Map.{Map, lookup, insert, bytes_key, nat_key}
use redis_inmemory_replica.Storage.Value.{Value, is_expired, after_readings}
use redis_inmemory_replica.Storage.Memory.Methods.{is_expired_mono}
use redis_inmemory_replica.Storage.Memory.Expiry.{is_live}
use redis_inmemory_replica.Storage.Memory.{Memory, key_hash, database, shard}
use redis_inmemory_replica.Storage.Memory.WellFormed.{IsWellFormed, view, open_shard-Opened}
use redis_inmemory_replica.Storage.Memory.Batch.{
  group_keys, exists_in, exists_key, exists_group, exists_groups, exists,
}
use redis_inmemory_replica.Storage.Memory.Batch.Groups.{
  Homed, AllHomed, group_keys-AllHomed, grown, grown_here, grown_later,
}

module _ (hash : Bytes → ℕ) (s : Memory) where
  -- 1 for a key that is live in the current database at a time, and 0 for another.
  abbrev pub one : ℕ → Bytes → ℕ
  one now key = if is_live now (view hash s s.current_db key) then 1 else 0

  exists_in-is_live :
      (now : ℕ) (o : Option Value) → exists_in now o ≡ (if is_live now o then 1 else 0)
  exists_in-is_live now none = refl
  exists_in-is_live now (some v) = elim (Bool-cases (is_expired now v)) [
    | inl on ↦ rw on
    | inr off ↦ rw off
  ]

  exists_key-view :
      (now : ℕ) (key : Bytes)
      → IsWellFormed hash s
      → exists_key now (key_hash hash s key) key s ≡ some (one now key, s)
  unfolding exists_key database shard
  exists_key-view now key w =
      let o = open_shard-Opened hash s key w in
      rw (o.is_current, o.is_shard)
        (ap (λ v. some (exists_in now v, s)) o.shows
          ∙ ap (λ n. some (n, s)) (exists_in-is_live now (view hash s s.current_db key)))

  -- The keys of a group that are live, each at its own reading of the clock.
  abbrev read_count : (ℕ → ℕ) → List Bytes → ℕ
  read_count clock [] = 0
  read_count clock (key ∷ keys) = one (clock 0) key + read_count (after_readings 1 clock) keys

  abbrev groups_read : (ℕ → ℕ) → Map ℕ (List Bytes) → ℕ
  groups_read clock [] = 0
  groups_read clock ((i, keys) ∷ groups) =
      read_count clock keys + groups_read (after_readings (length keys) clock) groups

  exists_group-count :
      (clock : ℕ → ℕ) (i : ℕ) (keys : List Bytes) (n : ℕ)
      → IsWellFormed hash s
      → Homed hash s i keys
      → exists_group clock i keys n s ≡ some (n + read_count clock keys, s)
  unfolding exists_group
  exists_group-count clock i [] n w h = let e : n ≡ n + 0 = omega arith in ap (λ m. some (m, s)) e
  exists_group-count clock i (key ∷ keys) n w h =
      let here : exists_key (clock 0) i key s ≡ some (one (clock 0) key, s) =
        ap (λ k. exists_key (clock 0) k key s) (sym h.0) ∙ exists_key-view (clock 0) key w in
      let more = read_count (after_readings 1 clock) keys in
      let assoc : (n + one (clock 0) key) + more ≡ n + (one (clock 0) key + more) = omega arith in
      rw here (exists_group-count (after_readings 1 clock) i keys (n + one (clock 0) key) w h.1)
      ∙ ap (λ m. some (m, s)) assoc

  exists_groups-count :
      (clock : ℕ → ℕ) (groups : Map ℕ (List Bytes)) (n : ℕ)
      → IsWellFormed hash s
      → AllHomed hash s groups
      → exists_groups clock groups n s ≡ some (n + groups_read clock groups, s)
  unfolding exists_groups
  exists_groups-count clock [] n w h = let e : n ≡ n + 0 = omega arith in ap (λ m. some (m, s)) e
  exists_groups-count clock ((i, keys) ∷ groups) n w h =
      let after = after_readings (length keys) clock in
      let assoc : (n + read_count clock keys) + groups_read after groups
          ≡ n + (read_count clock keys + groups_read after groups) =
        omega arith in
      rw (exists_group-count clock i keys n w h.0)
        (exists_groups-count after groups (n + read_count clock keys) w h.1)
      ∙ ap (λ m. some (m, s)) assoc

  -- `Exists` returns, with the engine as it was.
  pub exists-returned :
      (clock : ℕ → ℕ) (keys : List Bytes)
      → IsWellFormed hash s
      → exists hash clock keys s ≡ some (groups_read clock (group_keys hash s keys []), s)
  unfolding exists
  exists-returned clock keys w =
      let groups = group_keys hash s keys [] in
      let e : 0 + groups_read clock groups ≡ groups_read clock groups = omega arith in
      exists_groups-count clock groups 0 w (group_keys-AllHomed hash s keys [] tt)
      ∙ ap (λ m. some (m, s)) e

-- A key that is live is so at every earlier time.
is_live_mono :
    (now later : ℕ) (o : Option Value)
    → now ≤ later
    → (if is_live later o then 1 else 0) ≤ (if is_live now o then 1 else 0)
is_live_mono now later none h = omega arith
is_live_mono now later (some v) h = ground (arith, is_expired_mono now later v h)

module _ (hash : Bytes → ℕ) (s : Memory) (now : ℕ) where
  -- How many of the keys are live at the time, a key as often as it is given.
  abbrev pub live_count : List Bytes → ℕ
  live_count [] = 0
  live_count (key ∷ keys) = one hash s now key + live_count keys

  abbrev groups_count : Map ℕ (List Bytes) → ℕ
  groups_count [] = 0
  groups_count ((i, keys) ∷ groups) = live_count keys + groups_count groups

  live_count-append :
      (keys : List Bytes) (key : Bytes)
      → live_count (keys ++ key ∷ []) ≡ one hash s now key + live_count keys
  live_count-append [] key = refl
  live_count-append (k ∷ keys) key = omega (arith, live_count-append keys key)

  groups_count-insert :
      (i : ℕ) (key : Bytes) (groups : Map ℕ (List Bytes))
      → groups_count (grown hash i key groups) ≡ one hash s now key + groups_count groups
  groups_count-insert i key [] = unfold insert lookup in omega arith
  groups_count-insert i key ((k, keys) ∷ groups) = elim (Bool-cases (k == i)) [
    | inl on ↦
        let e : live_count (keys ++ key ∷ []) + groups_count groups
            ≡ one hash s now key + (live_count keys + groups_count groups) =
          omega (arith, live_count-append keys key) in
        ap groups_count (grown_here hash i key k keys groups on) ∙ e
    | inr off ↦
        let e : live_count keys + groups_count (grown hash i key groups)
            ≡ one hash s now key + (live_count keys + groups_count groups) =
          omega (arith, groups_count-insert i key groups) in
        ap groups_count (grown_later hash i key k keys groups off) ∙ e
  ]

  groups_count-group_keys :
      (keys : List Bytes) (groups : Map ℕ (List Bytes))
      → groups_count (group_keys hash s keys groups) ≡ live_count keys + groups_count groups
  unfolding group_keys
  groups_count-group_keys [] groups = omega arith
  groups_count-group_keys (key ∷ keys) groups =
      let e : live_count keys + (one hash s now key + groups_count groups)
          ≡ (one hash s now key + live_count keys) + groups_count groups =
        omega arith in
      groups_count-group_keys keys _
      ∙ ap (λ n. live_count keys + n) (groups_count-insert (key_hash hash s key) key groups)
      ∙ e

module _ (hash : Bytes → ℕ) (s : Memory) (now later : ℕ) where
  -- Every reading of the clock is between the two times.
  abbrev pub Between : (ℕ → ℕ) → Type 0
  Between clock = (i : ℕ) → (now ≤ clock i) × (clock i ≤ later)

  read_count_bounds :
      (clock : ℕ → ℕ) (keys : List Bytes)
      → Between clock
      → (live_count hash s later keys ≤ read_count hash s clock keys)
        × (read_count hash s clock keys ≤ live_count hash s now keys)
  read_count_bounds clock [] h = (omega arith, omega arith)
  read_count_bounds clock (key ∷ keys) h =
      let (low, high) = read_count_bounds (after_readings 1 clock) keys (λ i. h (1 + i)) in
      let v = view hash s s.current_db key in
      let early = is_live_mono now (clock 0) v (h 0).0 in
      let late = is_live_mono (clock 0) later v (h 0).1 in
      (omega (arith, low, late), omega (arith, high, early))

  groups_read_bounds :
      (clock : ℕ → ℕ) (groups : Map ℕ (List Bytes))
      → Between clock
      → (groups_count hash s later groups ≤ groups_read hash s clock groups)
        × (groups_read hash s clock groups ≤ groups_count hash s now groups)
  groups_read_bounds clock [] h = (omega arith, omega arith)
  groups_read_bounds clock ((i, keys) ∷ groups) h =
      let (low, high) = read_count_bounds clock keys h in
      let (least, most) =
        groups_read_bounds (after_readings (length keys) clock) groups (λ j. h (length keys + j)) in
      (omega (arith, low, least), omega (arith, high, most))

  -- On a well-formed engine, where every reading of the clock is between two times, `Exists` changes
  -- nothing and returns at least the number of its keys that are live in the current database at the
  -- later time, and at most the number of those that are live at the earlier one, a key as often as it
  -- is given; so it returns that number where the two times are one.
  pub exists-live_count :
      (clock : ℕ → ℕ) (keys : List Bytes)
      → IsWellFormed hash s
      → Between clock
      → (n : ℕ) × (exists hash clock keys s ≡ some (n, s))
        × (live_count hash s later keys ≤ n)
        × (n ≤ live_count hash s now keys)
  exists-live_count clock keys w h =
      let groups = group_keys hash s keys [] in
      let (low, high) = groups_read_bounds clock groups h in
      let most = groups_count-group_keys hash s now keys [] in
      let least = groups_count-group_keys hash s later keys [] in
      (
        groups_read hash s clock groups,
        exists-returned hash s clock keys w,
        omega (arith, low, least),
        omega (arith, high, most),
      )
