-- ===== src/Storage/Value.antt =====
-- storage/value.go. The engine stores strings only; the other payloads of the `interface{}` field
-- are one constructor without content. Times are numbers on one clock, in nanoseconds.
use redis_inmemory_replica.Base.{ℕ, ◌+◌, Bool, false, Bytes, codes, Option, none, some, ltb}

pub data ValueType : Type 0 where
  string list set zset hash stream : ValueType

-- `ValueType.String`; the `default` branch is for numbers that name no type.
unfoldable pub type_name : ValueType → Bytes
type_name string = codes "string"
type_name list = codes "list"
type_name set = codes "set"
type_name zset = codes "zset"
type_name hash = codes "hash"
type_name stream = codes "stream"

pub data Payload : Type 0 where
  string_value : Bytes → Payload
  other_value : Payload

pub record Value : Type 0 where
  pub kind : ValueType
  pub payload : Payload
  pub expiry : Option ℕ
  pub version : ℕ

abbrev pub passed : ℕ → Option ℕ → Bool
passed now none = false
passed now (some t) = ltb t now

-- `IsExpired`: strictly after the expiry.
unfoldable pub is_expired : ℕ → Value → Bool
is_expired now v = passed now v.expiry

-- The clock after `n` more readings.
abbrev pub after_readings : ℕ → (ℕ → ℕ) → ℕ → ℕ
after_readings n clock i = clock (n + i)
