-- ===== src/Storage/Map/Laws.antt =====
-- The laws of a map, at a key, and the invariant that a key stands once.
use redis_inmemory_replica.Base.{
  ◌+◌, ◌≡◌, refl, true, false, inl, inr, [], ◌∷◌, none, some, length, All, arith, Bool-cases,
  if◌then◌else◌,
}
use redis_inmemory_replica.Storage.Map.{Key, Map, lookup, insert, delete}

module _ {K : Type 0} ⦃k : Key K⦄ where
  pub same_refl : (a : K) → k.same a a ≡ true
  same_refl a = (k.same_iff a a).1 refl

  same_comm : (a b : K) → k.same a b ≡ false → k.same b a ≡ false
  same_comm a b h = ground (arith, k.same_iff a b, k.same_iff b a)

module _ {K V : Type 0} ⦃k : Key K⦄ where
  pub lookup-insert :
      (key j : K) (v : V) (m : Map K V)
      → lookup j (insert key v m) ≡ (if k.same key j then some v else lookup j m)
  unfolding lookup insert
  lookup-insert key j v [] = refl
  lookup-insert key j v ((i, w) ∷ m) =
      ground (arith, k.same_iff key j, k.same_iff i key, k.same_iff i j, lookup-insert key j v m)

  pub lookup-delete :
      (key j : K) (m : Map K V)
      → lookup j (delete key m) ≡ (if k.same key j then none else lookup j m)
  unfolding lookup delete
  lookup-delete key j [] = ground arith
  lookup-delete key j ((i, w) ∷ m) =
      ground (arith, k.same_iff key j, k.same_iff i key, k.same_iff i j, lookup-delete key j m)

  -- The key stands in no entry.
  abbrev pub Absent : K → Map K V → Type 0
  Absent key = All (λ (e : K × V). k.same e.0 key ≡ false)

  pub lookup-Absent : (key : K) (m : Map K V) → Absent key m → lookup key m ≡ none
  unfolding lookup
  lookup-Absent key [] h = refl
  lookup-Absent key ((j, v) ∷ m) h = ground (arith, lookup-Absent key m h.1, h.0)

  pub none-Absent : (key : K) (m : Map K V) → lookup key m ≡ none → Absent key m
  unfolding lookup
  none-Absent key [] h = tt
  none-Absent key ((j, v) ∷ m) h = (ground arith, none-Absent key m (ground arith))

  -- Every key stands once.
  abbrev pub Distinct : Map K V → Type 0
  Distinct [] = Unit
  Distinct ((j, v) ∷ m) = Absent j m × Distinct m

  Absent-insert :
      (key j : K) (v : V) (m : Map K V)
      → k.same key j ≡ false
      → Absent j m
      → Absent j (insert key v m)
  unfolding insert
  Absent-insert key j v [] e h = (e, tt)
  Absent-insert key j v ((i, w) ∷ m) e h = elim (Bool-cases (k.same i key)) [
    | inl hit ↦ rw hit h
    | inr miss ↦ rw miss (h.0, Absent-insert key j v m e h.1)
  ]

  Absent-delete : (key j : K) (m : Map K V) → Absent j m → Absent j (delete key m)
  unfolding delete
  Absent-delete key j [] h = tt
  Absent-delete key j ((i, w) ∷ m) h = elim (Bool-cases (k.same i key)) [
    | inl hit ↦ rw hit (Absent-delete key j m h.1)
    | inr miss ↦ rw miss (h.0, Absent-delete key j m h.1)
  ]

  pub Distinct-insert : (key : K) (v : V) (m : Map K V) → Distinct m → Distinct (insert key v m)
  unfolding insert
  Distinct-insert key v [] h = (tt, tt)
  Distinct-insert key v ((i, w) ∷ m) h = elim (Bool-cases (k.same i key)) [
    | inl hit ↦ rw hit h
    | inr miss ↦
        rw miss (Absent-insert key i v m (same_comm i key miss) h.0, Distinct-insert key v m h.1)
  ]

  pub Distinct-delete : (key : K) (m : Map K V) → Distinct m → Distinct (delete key m)
  unfolding delete
  Distinct-delete key [] h = tt
  Distinct-delete key ((i, w) ∷ m) h = elim (Bool-cases (k.same i key)) [
    | inl hit ↦ rw hit (Distinct-delete key m h.1)
    | inr miss ↦ rw miss (Absent-delete key i m h.0, Distinct-delete key m h.1)
  ]

  delete-Absent : (key : K) (m : Map K V) → Absent key m → delete key m ≡ m
  unfolding delete
  delete-Absent key [] h = refl
  delete-Absent key ((i, w) ∷ m) h = rw (h.0, delete-Absent key m h.1)

  Absent-same : (a b : K) (m : Map K V) → k.same a b ≡ true → Absent a m → Absent b m
  Absent-same a b [] e h = tt
  Absent-same a b ((i, w) ∷ m) e h = (ground (arith, k.same_iff a b, h.0), Absent-same a b m e h.1)

  -- Deleting a key that stands once takes one entry.
  pub length-delete :
      (key : K) (v : V) (m : Map K V)
      → Distinct m
      → lookup key m ≡ some v
      → length (delete key m) + 1 ≡ length m
  unfolding lookup delete
  length-delete key v [] d e = cc
  length-delete key v ((i, w) ∷ m) d e = elim (Bool-cases (k.same i key)) [
    | inl hit ↦ rw (hit, delete-Absent key m (Absent-same i key m hit d.0)) (omega arith)
    | inr miss ↦ rw miss (omega (arith, length-delete key v m d.1 (rw miss at e)))
  ]
