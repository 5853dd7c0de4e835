-- ===== src/Storage/Memory/Batch/Groups.antt =====
-- The groups of keys by shard that `Del` and `Exists` make.
use mathlib.Core.Path.{subst}
use redis_inmemory_replica.Base.{
  ℕ, ◌≡◌, refl, sym, ap, ◌∙◌, Bool, true, false, ◌||◌, inl, inr, List, [], ◌∷◌, ◌++◌, Bytes, All,
  All-append, arith, Bool-cases, bytes_eq, ◌==◌,
}
use redis_inmemory_replica.Storage.Map.{Map, lookup, insert, bytes_key, nat_key}
use redis_inmemory_replica.Storage.Memory.{Memory, key_hash}
use redis_inmemory_replica.Storage.Memory.Batch.{or_empty, group_keys}

-- Whether the key stands in a list, and in one of the groups.
abbrev pub has : Bytes → List Bytes → Bool
has j [] = false
has j (k ∷ keys) = bytes_eq k j || has j keys

abbrev pub in_groups : Bytes → Map ℕ (List Bytes) → Bool
in_groups j [] = false
in_groups j ((i, keys) ∷ groups) = has j keys || in_groups j groups

module _ (hash : Bytes → ℕ) where
  -- Every key of a group has its shard, and of all groups.
  abbrev pub Homed : Memory → ℕ → List Bytes → Type 0
  Homed s i = All (λ key. key_hash hash s key ≡ i)

  abbrev pub AllHomed : Memory → Map ℕ (List Bytes) → Type 0
  AllHomed s = All (λ (g : ℕ × List Bytes). Homed s g.0 g.1)

  pub Homed-mask :
      (s t : Memory) (i : ℕ) (keys : List Bytes)
      → t.shard_mask ≡ s.shard_mask
      → Homed s i keys
      → Homed t i keys
  unfolding key_hash
  Homed-mask s t i [] e h = tt
  Homed-mask s t i (key ∷ keys) e h = (rw e h.0, Homed-mask s t i keys e h.1)

  pub AllHomed-mask :
      (s t : Memory) (groups : Map ℕ (List Bytes))
      → t.shard_mask ≡ s.shard_mask
      → AllHomed s groups
      → AllHomed t groups
  AllHomed-mask s t [] e h = tt
  AllHomed-mask s t ((i, keys) ∷ groups) e h =
      (Homed-mask s t i keys e h.0, AllHomed-mask s t groups e h.1)

  -- A key that is added to its group.
  abbrev pub grown : ℕ → Bytes → Map ℕ (List Bytes) → Map ℕ (List Bytes)
  grown i key groups = insert i (or_empty (lookup i groups) ++ key ∷ []) groups

  has-append :
      (j key : Bytes) (keys : List Bytes) → has j (keys ++ key ∷ []) ≡ bytes_eq key j || has j keys
  has-append j key [] = refl
  has-append j key (k ∷ keys) =
      rw (has-append j key keys) (swap (bytes_eq k j) (bytes_eq key j) (has j keys))
    where
      swap : (a b c : Bool) → a || (b || c) ≡ b || (a || c)
      swap a b c = ground arith

  pub grown_here :
      (i : ℕ) (key : Bytes) (k : ℕ) (keys : List Bytes) (groups : Map ℕ (List Bytes))
      → (k == i) ≡ true
      → grown i key ((k, keys) ∷ groups) ≡ (k, keys ++ key ∷ []) ∷ groups
  unfolding insert lookup
  grown_here i key k keys groups on = rw on refl

  pub grown_later :
      (i : ℕ) (key : Bytes) (k : ℕ) (keys : List Bytes) (groups : Map ℕ (List Bytes))
      → (k == i) ≡ false
      → grown i key ((k, keys) ∷ groups) ≡ (k, keys) ∷ grown i key groups
  unfolding insert lookup
  grown_later i key k keys groups off =
      let e : lookup i ((k, keys) ∷ groups) ≡ lookup i groups = rw off refl in
      rw off (ap (λ o. (k, keys) ∷ insert i (or_empty o ++ key ∷ []) groups) e)

  in_groups-insert :
      (j : Bytes) (i : ℕ) (key : Bytes) (groups : Map ℕ (List Bytes))
      → in_groups j (grown i key groups) ≡ bytes_eq key j || in_groups j groups
  in_groups-insert j i key [] = unfold insert lookup in single (bytes_eq key j)
    where
      single : (a : Bool) → (a || false) || false ≡ a || false
      single a = ground arith
  in_groups-insert j i key ((k, keys) ∷ groups) = elim (Bool-cases (k == i)) [
    | inl on ↦
        ap (in_groups j) (grown_here i key k keys groups on)
        ∙ rw (has-append j key keys) (group (bytes_eq key j) (has j keys) (in_groups j groups))
    | inr off ↦
        ap (in_groups j) (grown_later i key k keys groups off)
        ∙ rw (in_groups-insert j i key groups)
            (swap (has j keys) (bytes_eq key j) (in_groups j groups))
  ]
    where
      group : (a b c : Bool) → (a || b) || c ≡ a || (b || c)
      group a b c = ground arith

      swap : (a b c : Bool) → a || (b || c) ≡ b || (a || c)
      swap a b c = ground arith

  AllHomed-insert :
      (s : Memory) (key : Bytes) (groups : Map ℕ (List Bytes))
      → AllHomed s groups
      → AllHomed s (grown (key_hash hash s key) key groups)
  AllHomed-insert s key [] h = unfold insert lookup in ((refl, tt), tt)
  AllHomed-insert s key ((k, keys) ∷ groups) h = elim (Bool-cases (k == key_hash hash s key)) [
    | inl on ↦
        let e : key_hash hash s key ≡ k = ground arith in
        subst (AllHomed s) (sym (grown_here (key_hash hash s key) key k keys groups on))
          (All-append (λ j. key_hash hash s j ≡ k) keys (key ∷ []) h.0 (e, tt), h.1)
    | inr off ↦
        subst (AllHomed s) (sym (grown_later (key_hash hash s key) key k keys groups off))
          (h.0, AllHomed-insert s key groups h.1)
  ]

  pub group_keys-AllHomed :
      (s : Memory) (keys : List Bytes) (groups : Map ℕ (List Bytes))
      → AllHomed s groups
      → AllHomed s (group_keys hash s keys groups)
  unfolding group_keys
  group_keys-AllHomed s [] groups h = h
  group_keys-AllHomed s (key ∷ keys) groups h =
      group_keys-AllHomed s keys _ (AllHomed-insert s key groups h)

  pub in_groups-group_keys :
      (s : Memory) (j : Bytes) (keys : List Bytes) (groups : Map ℕ (List Bytes))
      → in_groups j (group_keys hash s keys groups) ≡ has j keys || in_groups j groups
  unfolding group_keys
  in_groups-group_keys s j [] groups = refl
  in_groups-group_keys s j (key ∷ keys) groups =
      in_groups-group_keys s j keys _
      ∙ rw (in_groups-insert j (key_hash hash s key) key groups)
          (swap (has j keys) (bytes_eq key j) (in_groups j groups))
    where
      swap : (a b c : Bool) → a || (b || c) ≡ (b || a) || c
      swap a b c = ground arith
