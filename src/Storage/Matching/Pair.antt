-- ===== src/Storage/Matching/Pair.antt =====
-- Pairs of indices as the keys of a map.
use redis_inmemory_replica.Base.{ℕ, ◌≡◌, ◌↔◌, Bool, true, ◌&&◌, ◌==◌, arith, ap}
use redis_inmemory_replica.Storage.Map.{Key}

abbrev pub same_pair : ℕ × ℕ → ℕ × ℕ → Bool
same_pair a b = a.0 == b.0 && a.1 == b.1

pub same_pair_iff : (a b : ℕ × ℕ) → (same_pair a b ≡ true) ↔ (a ≡ b)
same_pair_iff (i, j) (k, l) =
    (λ h. cc (same_left h, same_right h), λ e. same_both (ap (λ p. p.0) e) (ap (λ p. p.1) e))
  where
    same_left : same_pair (i, j) (k, l) ≡ true → i ≡ k
    same_left h = ground arith

    same_right : same_pair (i, j) (k, l) ≡ true → j ≡ l
    same_right h = ground arith

    same_both : i ≡ k → j ≡ l → same_pair (i, j) (k, l) ≡ true
    same_both p q = ground arith

instance abbrev pub pair_key : Key (ℕ × ℕ)
pair_key = record { same = same_pair; same_iff = same_pair_iff }
