-- ===== src/Replication/Rdb/Ends/Parsing.antt =====
-- `Parse` ends: the loop has fuel enough on every input.
use redis_inmemory_replica.Base.{ℕ, ◌≤◌, Bytes, ok, err, none, some, length}
use redis_inmemory_replica.Replication.Rdb.{Input}
use redis_inmemory_replica.Replication.Rdb.Parse.{Parsed}
use redis_inmemory_replica.Replication.Rdb.Ends.{IsReal, Ends}

module _ {H : Type 0} where
  -- The parse has come to an end of the source: a panic, no error, or one of its errors.
  abbrev pub IsOver : Parsed H → Type 0
  IsOver none = Unit
  IsOver (some (ok u, h)) = Unit
  IsOver (some (err e, h)) = IsReal e

  -- What the loop does with shorter inputs.
  abbrev Continues : ℕ → (Input → H → Parsed H) → Type 0
  Continues n next = (k : ℕ) (s : Bytes) (h : H) → length s ≤ n → IsOver (next (k, s) h)
