-- ===== src/Storage/Map.antt =====
-- Go maps as association lists. An insertion replaces an entry in place, so a key stands once; the
-- order of the entries is an order in which `range` may visit them.
pub mod Laws
use redis_inmemory_replica.Base.{
  ℕ, suc, ◌≡◌, ◌↔◌, Bool, true, List, [], ◌∷◌, Option, none, some, Bytes, bytes_eq, bytes_eq_iff,
  ◌==◌, ==_iff, if◌then◌else◌,
}

-- Keys that can be compared.
pub record Key (K : Type 0) : Type 0 where
  pub same : K → K → Bool
  pub same_iff : (a b : K) → (same a b ≡ true) ↔ (a ≡ b)

instance abbrev pub bytes_key : Key Bytes
bytes_key = record { same = bytes_eq; same_iff = bytes_eq_iff }

instance abbrev pub nat_key : Key ℕ
nat_key = record { same = λ a b. a == b; same_iff = ==_iff }

abbrev pub Map : Type 0 → Type 0 → Type 0
Map K V = List (K × V)

module _ {K V : Type 0} ⦃k : Key K⦄ where
  -- `m[key]`
  unfoldable pub lookup : K → Map K V → Option V
  lookup key [] = none
  lookup key ((j, v) ∷ m) = if k.same j key then some v else lookup key m

  -- `m[key] = v`
  unfoldable pub insert : K → V → Map K V → Map K V
  insert key v [] = (key, v) ∷ []
  insert key v ((j, w) ∷ m) = if k.same j key then (j, v) ∷ m else (j, w) ∷ insert key v m

  -- `delete(m, key)`
  unfoldable pub delete : K → Map K V → Map K V
  delete key [] = []
  delete key ((j, w) ∷ m) = let rest = delete key m in if k.same j key then rest else (j, w) ∷ rest
