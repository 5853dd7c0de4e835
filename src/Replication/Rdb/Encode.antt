-- ===== src/Replication/Rdb/Encode.antt =====
-- Snapshots, written out on their own, and the parser at their bytes.
use redis_inmemory_replica.Base.{
  ℕ, ◌+◌, ◌*◌, ◌/◌, ◌%◌, ◌^◌, ◌<◌, ◌≤◌, ◌≡◌, ap, ◌∙◌, List, [], ◌∷◌, ◌++◌, Bytes, codes, ok, err,
  Option, none, some, pos, length, length-append, arith,
}
use redis_inmemory_replica.Replication.Apply.{Outcome}
use redis_inmemory_replica.Replication.Handler.{RdbValue, on_ok, failed}
use redis_inmemory_replica.Replication.Rdb.{
  VersionStrategy, strategy_of, RdbError, handler_failed, Input, continue, wrapped, rescued,
}
use redis_inmemory_replica.Replication.Rdb.Strings.{read_little}
use redis_inmemory_replica.Replication.Rdb.Strings.Encode.{
  Text, text_of, IsText, encode_text, encode_length, little_bytes, read_little-append,
}
use redis_inmemory_replica.Replication.Rdb.Values.Encode.{
  Item, item_type, item_value, IsItem, encode_item,
}
use redis_inmemory_replica.Replication.Rdb.Parse.{RdbHandler, from_seconds, from_millis}

pub data Expiry : Type 0 where
  never : Expiry
  seconds millis : ℕ → Expiry

pub data Entry : Type 0 where
  database : ℕ → Entry
  aux : Text → Text → Entry
  sizes : ℕ → ℕ → Entry
  key : Expiry → Text → Item → Entry

abbrev pub expiry_time : Expiry → Option ℕ
expiry_time never = none
expiry_time (seconds t) = some (from_seconds t)
expiry_time (millis t) = some (from_millis t)

abbrev pub IsExpiry : Expiry → Type 0
IsExpiry never = Unit
IsExpiry (seconds t) = t < 2 ^ 32
IsExpiry (millis t) = t < 2 ^ 64

abbrev pub IsEntry : Entry → Type 0
IsEntry (database n) = n < 2 ^ 32
IsEntry (aux k v) = IsText k × IsText v
IsEntry (sizes n m) = (n < 2 ^ 32) × (m < 2 ^ 32)
IsEntry (key e k i) = IsExpiry e × IsText k × IsItem i

abbrev pub long_bytes : ℕ → Bytes
long_bytes n = little_bytes (n % 2 ^ 32) ++ little_bytes (n / 2 ^ 32)

abbrev pub encode_expiry : Expiry → Bytes
encode_expiry never = []
encode_expiry (seconds t) = 253 ∷ little_bytes t
encode_expiry (millis t) = 252 ∷ long_bytes t

unfoldable pub encode_entry : Entry → Bytes
unfolding encode_length encode_text encode_item
encode_entry (database n) = 254 ∷ encode_length n
encode_entry (aux k v) = 250 ∷ (encode_text k ++ encode_text v)
encode_entry (sizes n m) = 251 ∷ (encode_length n ++ encode_length m)
encode_entry (key e k i) = encode_expiry e ++ (item_type i ∷ (encode_text k ++ encode_item i))

-- The entries, the end and a trailer, which nobody reads.
unfoldable pub encode_entries : List Entry → Bytes → Bytes
unfolding encode_entry
encode_entries [] trailer = 255 ∷ trailer
encode_entries (e ∷ es) trailer = encode_entry e ++ encode_entries es trailer

unfoldable pub encode_snapshot : Bytes → List Entry → Bytes → Bytes
unfolding encode_entries
encode_snapshot version es trailer = (codes "REDIS" ++ version) ++ encode_entries es trailer

long-value : (n : ℕ) → n < 2 ^ 64 → n % 2 ^ 32 + 2 ^ 32 * (n / 2 ^ 32) ≡ n
long-value n h = omega arith

pub read_little-long_bytes :
    (k n : ℕ) (rest : Bytes)
    → n < 2 ^ 64
    → read_little 8 (k, long_bytes n ++ rest) ≡ (ok n, (k, rest))
read_little-long_bytes k n rest h =
    read_little-append k (long_bytes n) rest ∙ ap (λ m. (ok m, (k, rest))) value
  where
    value : redis_inmemory_replica.Replication.Rdb.little_endian (long_bytes n) ≡ n
    value = omega (arith, long-value n h)

-- How many rounds of the loop an entry takes.
abbrev pub rounds : Entry → ℕ
rounds (key never k i) = 1
rounds (key e k i) = 2
rounds e = 1

abbrev pub all_rounds : List Entry → ℕ
all_rounds [] = 1
all_rounds (e ∷ es) = rounds e + all_rounds es

rounds-length : (e : Entry) → rounds e ≤ length (encode_entry e)
unfolding encode_entry
rounds-length (database n) = omega arith
rounds-length (aux k v) = omega arith
rounds-length (sizes n m) = omega arith
rounds-length (key never k i) = omega arith
rounds-length (key (seconds t) k i) = omega arith
rounds-length (key (millis t) k i) = omega arith

pub all_rounds-length :
    (es : List Entry) (trailer : Bytes) → all_rounds es ≤ length (encode_entries es trailer)
unfolding encode_entries
all_rounds-length [] trailer = omega arith
all_rounds-length (e ∷ es) trailer = omega (
  arith,
  rounds-length e,
  all_rounds-length es trailer,
  length-append (encode_entry e) (encode_entries es trailer),
)

module _ {H : Type 0} where
  -- Not an error.
  abbrev pub Quiet : Outcome H → Type 0
  Quiet none = Unit
  Quiet (some (ok u, h)) = Unit
  Quiet (some (err e, h)) = ⊥

  -- A handler whose calls for keys and auxiliary fields do not fail.
  pub record IsQuiet (handler : RdbHandler H) : Type 0 where
    pub keys : (k : Bytes) (v : RdbValue) (e : Option ℕ) (h : H) → Quiet (handler.on_key k v e h)
    pub auxs : (k v : Bytes) (h : H) → Quiet (handler.on_aux k v h)

module _ {H : Type 0} (handler : RdbHandler H) where
  -- The calls that a snapshot makes of a handler.
  unfoldable pub deliver_entry : Entry → H → Outcome H
  unfolding item_value
  deliver_entry (database n) h = handler.on_database (pos n) h
  deliver_entry (aux k v) h = handler.on_aux (text_of k) (text_of v) h
  deliver_entry (sizes n m) h = handler.on_resize_db n m h
  deliver_entry (key e k i) h = handler.on_key (text_of k) (item_value i) (expiry_time e) h

  unfoldable pub deliver : List Entry → H → Outcome H
  unfolding deliver_entry
  deliver [] h = handler.on_end h
  deliver (e ∷ es) h = on_ok (deliver es) failed (deliver_entry e h)
