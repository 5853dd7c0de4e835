-- ===== src/Replication/Rdb/Parse.antt =====
-- `RDBParser.Parse` of replication/rdb.go over any handler: the header, the loop over the opcodes, the
-- auxiliary fields and the keys. A panic of the handler is `none`. Every round of the loop takes one
-- byte at least, so the length of the input is fuel enough.
use redis_inmemory_replica.Base.{
  ℕ, zero, suc, ◌+◌, ◌*◌, ◌/◌, ◌%◌, [], ◌∷◌, Bytes, codes, bytes_eq, Option, none, some, ℤ, pos,
  negsuc, Result, ok, err, length, take, drop, ltb, ◌==◌, if◌then◌else◌,
}
use redis_inmemory_replica.Stream.{IoError, read_full}
use redis_inmemory_replica.Replication.Apply.{Outcome, atoi}
use redis_inmemory_replica.Replication.Handler.{RdbValue}
use redis_inmemory_replica.Replication.Rdb.{
  VersionStrategy, strategy_of, RdbError, header_failed, invalid_magic, invalid_version,
  unsupported_version, handler_failed, database_failed, expiry_failed, aux_failed, aux_key_failed,
  aux_value_failed, key_failed, value_failed, out_of_fuel, Input, Read, pure, wrap, ◌>>=◌, can_skip,
  rescue,
}
use redis_inmemory_replica.Replication.Rdb.Strings.{read_length, read_little, read_string}
use redis_inmemory_replica.Replication.Rdb.Values.{read_value}

-- `RDBHandler` and `RDBResizeHandler`.
pub record RdbHandler (H : Type 0) : Type 0 where
  pub on_database : ℤ → H → Outcome H
  pub on_key : Bytes → RdbValue → Option ℕ → H → Outcome H
  pub on_aux : Bytes → Bytes → H → Outcome H
  pub on_resize_db : ℕ → ℕ → H → Outcome H
  pub on_end : H → Outcome H

abbrev pub opcode_eof : ℕ
opcode_eof = 255

abbrev pub opcode_db : ℕ
opcode_db = 254

abbrev pub opcode_expiry : ℕ
opcode_expiry = 253

abbrev pub opcode_expiry_ms : ℕ
opcode_expiry_ms = 252

abbrev pub opcode_resize_db : ℕ
opcode_resize_db = 251

abbrev pub opcode_aux : ℕ
opcode_aux = 250

abbrev pub max_supported_version : ℕ
max_supported_version = 12

-- `time.Unix` in nanoseconds.
abbrev pub from_seconds : ℕ → ℕ
from_seconds t = t * 1000000000

abbrev pub from_millis : ℕ → ℕ
from_millis t = t / 1000 * 1000000000 + t % 1000 * 1000000

abbrev pub Parsed : Type 0 → Type 0
Parsed H = Option (Result RdbError (Unit {0}) × H)

module _ {H : Type 0} (handler : RdbHandler H) where
  abbrev pub ended : Outcome H → Parsed H
  ended none = none
  ended (some (ok u, h)) = some (ok tt, h)
  ended (some (err e, h)) = some (err (handler_failed e), h)

  -- A call whose error ends the parse.
  abbrev pub called : (H → Parsed H) → Outcome H → Parsed H
  called next none = none
  called next (some (ok u, h)) = next h
  called next (some (err e, h)) = some (err (handler_failed e), h)

  module _ (strategy : VersionStrategy) where
    -- `if !p.canSkipError() { return … }`, and the loop goes on.
    abbrev pub skip_or_stop : (Input → H → Parsed H) → RdbError → Input → H → Parsed H
    skip_or_stop next e (n, s) h =
        let on = next (suc n, s) h in if can_skip strategy n then on else some (err e, h)

    -- A call whose error may be skipped.
    abbrev pub called_or_skipped :
        (Input → H → Parsed H) → (RdbError → RdbError) → Input → Outcome H → Parsed H
    called_or_skipped next f s none = none
    called_or_skipped next f s (some (ok u, h)) = next s h
    called_or_skipped next f s (some (err e, h)) = skip_or_stop next (f (handler_failed e)) s h

    abbrev pub on_db : (Input → H → Parsed H) → H → Result RdbError ℕ × Input → Parsed H
    on_db next h (ok db, s) = called (next s) (handler.on_database (pos db) h)
    on_db next h (err e, s) = skip_or_stop next (database_failed e) s h

    -- `next` takes the expiry; one that cannot be read is reset.
    abbrev pub on_expiry :
        (Option ℕ → Input → H → Parsed H) → (ℕ → ℕ) → H → Result RdbError ℕ × Input → Parsed H
    on_expiry next time h (ok t, s) = next (some (time t)) s h
    on_expiry next time h (err e, s) = skip_or_stop (next none) (expiry_failed e) s h

    abbrev pub read_sizes : Read (ℕ × ℕ)
    read_sizes = do
      db_size ← rescue strategy read_length (pure 0)
      expires_size ← rescue strategy read_length (pure 0)
      pure (db_size, expires_size)

    abbrev pub on_resize : (Input → H → Parsed H) → H → Result RdbError (ℕ × ℕ) × Input → Parsed H
    on_resize next h (ok (db_size, expires_size), s) =
        called (next s) (handler.on_resize_db db_size expires_size h)
    on_resize next h (err e, s) = some (err e, h)

    -- `readAuxField` up to the call of the handler.
    abbrev pub read_aux_field : Read (Bytes × Bytes)
    read_aux_field = do
      key ← wrap aux_key_failed (read_string strategy)
      value ← wrap (aux_value_failed key) (read_string strategy)
      pure (key, value)

    abbrev pub on_aux_field :
        (Input → H → Parsed H) → H → Result RdbError (Bytes × Bytes) × Input → Parsed H
    on_aux_field next h (ok (key, value), s) =
        called_or_skipped next aux_failed s (handler.on_aux key value h)
    on_aux_field next h (err e, s) = skip_or_stop next (aux_failed e) s h

    -- `readKeyValue` up to the call of the handler.
    abbrev pub read_key_value : ℕ → Read (Bytes × Option RdbValue)
    read_key_value t = do
      key ← wrap key_failed (read_string strategy)
      value ← wrap (value_failed key) (read_value strategy t)
      pure (key, value)

    abbrev pub on_key_value :
        (Input → H → Parsed H)
        → Option ℕ
        → H
        → Result RdbError (Bytes × Option RdbValue) × Input
        → Parsed H
    on_key_value next expiry h (ok (key, none), s) = next s h
    on_key_value next expiry h (ok (key, some value), s) =
        called_or_skipped next (λ e. e) s (handler.on_key key value expiry h)
    on_key_value next expiry h (err e, s) = skip_or_stop next e s h

    -- The `switch` on the opcode.
    unfoldable pub step : (Option ℕ → Input → H → Parsed H) → ℕ → Option ℕ → Input → H → Parsed H
    unfolding read_length read_little read_string read_value can_skip
    step next c expiry s h =
        if c == opcode_eof
        then ended (handler.on_end h)
        else if c == opcode_db
        then on_db (next expiry) h (read_length s)
        else if c == opcode_expiry
        then on_expiry next from_seconds h (read_little 4 s)
        else if c == opcode_expiry_ms
        then on_expiry next from_millis h (read_little 8 s)
        else if c == opcode_resize_db
        then on_resize (next expiry) h (read_sizes s)
        else if c == opcode_aux
        then on_aux_field (next expiry) h (read_aux_field s)
        else on_key_value (next none) expiry h (read_key_value c s)

    -- The loop of `Parse`; the end of the input ends it too.
    unfoldable pub loop : ℕ → Option ℕ → Input → H → Parsed H
    unfolding step
    loop zero expiry s h = some (err out_of_fuel, h)
    loop (suc f) expiry (n, []) h = ended (handler.on_end h)
    loop (suc f) expiry (n, c ∷ s) h = step (loop f) c expiry (n, s) h

  abbrev pub versioned : Bytes → Option ℤ → Bytes → H → Parsed H
  versioned text none s h = some (err (invalid_version text), h)
  versioned text (some (negsuc v)) s h =
      loop (strategy_of (negsuc v)) (suc (length s)) none (0, s) h
  versioned text (some (pos v)) s h =
      if ltb max_supported_version v
      then some (err (unsupported_version (pos v)), h)
      else loop (strategy_of (pos v)) (suc (length s)) none (0, s) h

  abbrev pub with_header : Result IoError Bytes × Bytes → H → Parsed H
  with_header (err e, s) h = some (err (header_failed e), h)
  with_header (ok header, s) h =
      if bytes_eq (take 5 header) (codes "REDIS")
      then versioned (drop 5 header) (atoi (drop 5 header)) s h
      else some (err (invalid_magic (take 5 header)), h)

  -- `ParseRDB`
  unfoldable pub parse_rdb : Bytes → H → Parsed H
  unfolding read_full bytes_eq atoi strategy_of loop
  parse_rdb input h = with_header (read_full 9 input) h
