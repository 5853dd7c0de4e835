-- ===== src/Storage/Memory/Access.antt =====
-- The methods of `MemoryStorage` on single keys. A method that reads the clock twice has two times.
use redis_inmemory_replica.Base.{ℕ, Bool, true, false, Bytes, Option, none, some, if◌then◌else◌}
use redis_inmemory_replica.Storage.Map.{lookup, insert, delete, bytes_key, nat_key}
use redis_inmemory_replica.Storage.Value.{
  Value, ValueType, string, Payload, string_value, is_expired,
}
use redis_inmemory_replica.Storage.Memory.{
  Shard, M, pure, ◌>>=◌, ◌>>◌, open_shard, write_shard, notify, key_set, key_expired, key_accessed,
}
use redis_inmemory_replica.Storage.Memory.Evict.{enforce_limit}

-- The bytes of a string value.
abbrev pub string_bytes : ValueType → Payload → Option Bytes
string_bytes string (string_value b) = some b
string_bytes _ _ = none

-- `time.Until` and the two negative answers of `TTL` and `PTTL`.
pub data Ttl : Type 0 where
  no_key no_expiry : Ttl
  until : ℕ → ℕ → Ttl

module _ (hash : Bytes → ℕ) where
  abbrev pub drop_expired : ℕ → Bytes → ℕ → Shard → Option Value → M (Unit {0})
  drop_expired now key i sh none = pure tt
  drop_expired now key i sh (some v) =
      if is_expired now v
      then (do write_shard i (delete key sh); notify (key_expired key))
      else pure tt

  -- `deleteExpiredKey`
  unfoldable pub delete_expired_key : ℕ → Bytes → M (Unit {0})
  unfolding open_shard write_shard notify delete lookup is_expired
  delete_expired_key now key = do
    (i, sh) ← open_shard hash key
    drop_expired now key i sh (lookup key sh)

  abbrev pub get_value : ℕ → ℕ → Bytes → Option Value → M (Option Bytes)
  get_value now later key none = pure none
  get_value now later key (some v) =
      if is_expired now v
      then (do delete_expired_key later key; pure none)
      else (do notify (key_accessed key); pure (string_bytes v.kind v.payload))

  -- `Get`: the second time is that of the check in `deleteExpiredKey`.
  unfoldable pub get : ℕ → ℕ → Bytes → M (Option Bytes)
  unfolding open_shard lookup delete_expired_key notify is_expired
  get now later key = do (i, sh) ← open_shard hash key; get_value now later key (lookup key sh)

  abbrev pub new_value : ℕ → Bytes → Option ℕ → Value
  new_value now bytes expiry = record {
    kind = string;
    payload = string_value bytes;
    expiry = expiry;
    version = now;
  }

  -- `Set` up to the check of the memory limit.
  unfoldable pub store : ℕ → Bytes → Bytes → Option ℕ → M (Unit {0})
  unfolding open_shard write_shard notify insert
  store now key bytes expiry = do
    (i, sh) ← open_shard hash key
    write_shard i (insert key (new_value now bytes expiry) sh)
    notify (key_set key bytes)

  -- `Set`
  unfoldable pub set_key : (Shard → ℕ) → ℕ → Bytes → Bytes → Option ℕ → M (Unit {0})
  unfolding store enforce_limit
  set_key choose now key bytes expiry s =
      (do store now key bytes expiry; enforce_limit choose s.memory_limit) s

  abbrev pub expire_value : ℕ → ℕ → Bytes → ℕ → Shard → Option Value → M Bool
  expire_value now time key i sh none = pure false
  expire_value now time key i sh (some v) =
      if is_expired now v
      then pure false
      else (do write_shard i (insert key (record v { expiry = some time }) sh); pure true)

  -- `Expire`
  unfoldable pub expire : ℕ → Bytes → ℕ → M Bool
  unfolding open_shard write_shard lookup insert is_expired
  expire now key time = do
    (i, sh) ← open_shard hash key
    expire_value now time key i sh (lookup key sh)

  abbrev pub ttl_at : ℕ → Option ℕ → Ttl
  ttl_at now none = no_expiry
  ttl_at now (some t) = until t now

  abbrev pub ttl_of : ℕ → ℕ → Option Value → Ttl
  ttl_of now later none = no_key
  ttl_of now later (some v) = if is_expired now v then no_key else ttl_at later v.expiry

  -- `TTL` and `PTTL`, which differ in the unit of their negative answers only.
  unfoldable pub ttl : ℕ → ℕ → Bytes → M Ttl
  unfolding open_shard lookup is_expired
  ttl now later key = do (i, sh) ← open_shard hash key; pure (ttl_of now later (lookup key sh))

  abbrev pub type_of : ℕ → Option Value → ValueType
  type_of now none = string
  type_of now (some v) = if is_expired now v then string else v.kind

  -- `Type`
  unfoldable pub key_type : ℕ → Bytes → M ValueType
  unfolding open_shard lookup is_expired
  key_type now key = do (i, sh) ← open_shard hash key; pure (type_of now (lookup key sh))
