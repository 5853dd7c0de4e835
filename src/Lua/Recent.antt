-- ===== src/Lua/Recent.antt =====
-- The list of digests of the cache: taking one out, and the last one.
use redis_inmemory_replica.Base.{
  ◌+◌, ◌≡◌, refl, ap, ◌∙◌, true, false, inl, inr, List, [], ◌∷◌, Bytes, bytes_eq, bytes_eq→eq,
  bytes_eq_refl, bytes_eq_iff, some, length, Bool-cases, arith, if◌then◌else◌,
}
use redis_inmemory_replica.Storage.Map.{bytes_key}
use redis_inmemory_replica.Replication.Apply.{member}
use redis_inmemory_replica.Lua.{remove, back}

-- No digest stands twice.
abbrev pub NoRepeat : List Bytes → Type 0
NoRepeat [] = Unit
NoRepeat (s ∷ shas) = (member s shas ≡ false) × NoRepeat shas

pub member-remove :
    (sha x : Bytes) (shas : List Bytes)
    → member x (remove sha shas) ≡ (if bytes_eq sha x then false else member x shas)
unfolding member remove
member-remove sha x [] = ground arith
member-remove sha x (s ∷ shas) =
    ground
      (arith, bytes_eq_iff sha x, bytes_eq_iff sha s, bytes_eq_iff s x, member-remove sha x shas)

remove-absent :
    (sha : Bytes) (shas : List Bytes)
    → member sha shas ≡ false
    → length (remove sha shas) ≡ length shas
unfolding member remove
remove-absent sha [] h = refl
remove-absent sha (s ∷ shas) h =
    ground (arith, bytes_eq_iff sha s, bytes_eq_iff s sha, remove-absent sha shas)

pub remove-present :
    (sha : Bytes) (shas : List Bytes)
    → NoRepeat shas
    → member sha shas ≡ true
    → length (remove sha shas) + 1 ≡ length shas
unfolding member remove
remove-present sha [] d h = cc
remove-present sha (s ∷ shas) d h = elim (Bool-cases (bytes_eq sha s)) [
  | inl on ↦
      let same : sha ≡ s = bytes_eq→eq sha s on in
      let gone : member sha shas ≡ false = ap (λ u. member u shas) same ∙ d.0 in
      rw on (omega (arith, remove-absent sha shas gone))
  | inr off ↦
      let there : member sha shas ≡ true = ground (arith, bytes_eq_iff sha s, bytes_eq_iff s sha) in
      rw off (omega (arith, remove-present sha shas d.1 there))
]

pub remove-NoRepeat : (sha : Bytes) (shas : List Bytes) → NoRepeat shas → NoRepeat (remove sha shas)
unfolding remove
remove-NoRepeat sha [] d = tt
remove-NoRepeat sha (s ∷ shas) d = elim (Bool-cases (bytes_eq sha s)) [
  | inl on ↦ rw on (remove-NoRepeat sha shas d.1)
  | inr off ↦ rw off (ground (arith, member-remove sha s shas, d.0), remove-NoRepeat sha shas d.1)
]

-- The last digest is in the list.
pub back-member :
    (s : Bytes) (shas : List Bytes)
    → (b : Bytes) × (back (s ∷ shas) ≡ some b) × (member b (s ∷ shas) ≡ true)
unfolding member
back-member s [] = (s, refl, ground (arith, bytes_eq_refl s))
back-member s (t ∷ shas) = let (b, e, h) = back-member t shas in (b, e, ground (arith, h))
