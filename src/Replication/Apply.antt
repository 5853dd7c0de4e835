-- ===== src/Replication/Apply.antt =====
-- `processCommand` and `executeCommand` of replication/client.go: how the replica applies a command
-- that its master sent. `none` is a panic of the engine. Logging and metrics are left out; the clock
-- of `Set`, the hash and the order of `range` in an eviction are parameters.
pub mod Isolation
use redis_inmemory_replica.Base.{
  ℕ, zero, suc, ◌+◌, ◌-◌, ◌*◌, ◌^◌, Bool, true, false, ◌&&◌, ◌||◌, not, List, [], ◌∷◌, Bytes, codes,
  bytes_eq, Option, none, some, ℤ, pos, negsuc, neg, Result, ok, err, ltb, leb, ◌==◌, map,
  if◌then◌else◌,
}
use redis_inmemory_replica.Protocol.Types.{Value}
use redis_inmemory_replica.Protocol.Command.{
  Command, CommandError, parse_command, to_upper, upper_byte,
}
use redis_inmemory_replica.Storage.Memory.{Shard, Memory}
use redis_inmemory_replica.Storage.Memory.Keyspace.{select_db}
use redis_inmemory_replica.Storage.Memory.Access.{set_key}
use redis_inmemory_replica.Storage.Memory.Batch.{del}

-- Membership in a Go set of strings.
unfoldable pub member : Bytes → List Bytes → Bool
unfolding bytes_eq
member name [] = false
member name (n ∷ names) = bytes_eq n name || member name names

abbrev pub int_eq : ℤ → ℤ → Bool
int_eq (pos a) (pos b) = a == b
int_eq (negsuc a) (negsuc b) = a == b
int_eq _ _ = false

-- Membership in `map[int]struct{}`.
unfoldable pub member_int : ℤ → List ℤ → Bool
member_int n [] = false
member_int n (m ∷ ms) = int_eq m n || member_int n ms

module _ {A : Type 0} where
  -- `len(m) > 0`
  abbrev pub nonempty : List A → Bool
  nonempty [] = false
  nonempty (x ∷ xs) = true

abbrev pub data_commands : List Bytes
data_commands = map codes (
    "SET" ∷ "DEL" ∷ "EXPIRE" ∷ "PERSIST" ∷ "INCR" ∷ "DECR" ∷ "INCRBY" ∷ "DECRBY" ∷ "APPEND"
    ∷ "SETRANGE" ∷ "GETSET" ∷ "SETNX" ∷ "SETEX" ∷ "PSETEX" ∷ "MSET" ∷ "MSETNX" ∷ "LPUSH" ∷ "RPUSH"
    ∷ "LPOP" ∷ "RPOP" ∷ "LSET" ∷ "LTRIM" ∷ "LINSERT" ∷ "LREM" ∷ "SADD" ∷ "SREM" ∷ "SPOP" ∷ "SMOVE"
    ∷ "SINTERSTORE" ∷ "SUNIONSTORE" ∷ "SDIFFSTORE" ∷ "ZADD" ∷ "ZREM" ∷ "ZINCRBY" ∷ "ZREMRANGEBYRANK"
    ∷ "ZREMRANGEBYSCORE" ∷ "ZREMRANGEBYLEX" ∷ "ZINTERSTORE" ∷ "ZUNIONSTORE" ∷ "HSET" ∷ "HDEL"
    ∷ "HINCRBY" ∷ "HINCRBYFLOAT" ∷ "HMSET" ∷ [])

-- `isDataCommand`
unfoldable pub is_data_command : Bytes → Bool
unfolding member
is_data_command name = member name data_commands

-- `strconv.Atoi`: an optional sign, then digits, in the range of a 64-bit `int`.
unfoldable pub atoi_digits : ℕ → Bytes → Option ℕ
atoi_digits acc [] = some acc
atoi_digits acc (c ∷ cs) =
    let rest = atoi_digits (acc * 10 + (c - b'0')) cs in
    if leb b'0' c && leb c b'9' then rest else none

abbrev pub atoi_number : Bytes → Option ℕ
atoi_number [] = none
atoi_number (c ∷ cs) = atoi_digits 0 (c ∷ cs)

abbrev pub in_range : Bool → Option ℕ → Option ℤ
in_range negative none = none
in_range true (some n) = if leb n (2 ^ 63) then some (neg n) else none
in_range false (some n) = if ltb n (2 ^ 63) then some (pos n) else none

unfoldable pub atoi : Bytes → Option ℤ
unfolding atoi_digits
atoi [] = none
atoi (c ∷ cs) =
    if c == b'-'
    then in_range true (atoi_number cs)
    else (if c == b'+'
        then in_range false (atoi_number cs)
        else in_range false (atoi_number (c ∷ cs)))

-- `storage`, `commandFilters`, `databases` and two counters of `stats`.
pub record Client : Type 0 where
  pub storage : Memory
  pub command_filters : List Bytes
  pub databases : List ℤ
  pub commands_processed : ℕ
  pub replication_offset : ℕ

pub data ApplyError : Type 0 where
  parse_failed : CommandError → ApplyError
  set_arguments select_arguments invalid_database database_out_of_range : ApplyError

abbrev pub Outcome : Type 0 → Type 0
Outcome S = Option (Result ApplyError (Unit {0}) × S)

abbrev pub done : {A : Type 0} → Option (A × Memory) → Outcome Memory
done none = none
done (some (a, s)) = some (ok tt, s)

abbrev pub selected : Memory × Bool → Outcome Memory
selected (s, b) = some (if b then ok tt else err database_out_of_range, s)

abbrev pub select_number : Option ℤ → Memory → Outcome Memory
select_number none s = some (err invalid_database, s)
select_number (some n) s = selected (select_db n s)

abbrev pub execute_select : List Bytes → Memory → Outcome Memory
execute_select (arg ∷ []) s = select_number (atoi arg) s
execute_select _ s = some (err select_arguments, s)

-- `SetCommandFilters`
unfoldable pub set_command_filters : List Bytes → Client → Client
unfolding upper_byte
set_command_filters commands c = record c { command_filters = map to_upper commands }

-- `SetDatabases`
unfoldable pub set_databases : List ℤ → Client → Client
set_databases dbs c = record c { databases = dbs }

abbrev pub blocked_number : Client → Option ℤ → Bool
blocked_number c none = false
blocked_number c (some n) = not (member_int n c.databases)

abbrev pub blocked_select : Client → List Bytes → Bool
blocked_select c (arg ∷ []) = blocked_number c (atoi arg)
blocked_select c _ = false

-- The three early returns of `processCommand`.
unfoldable pub skipped : Client → Command → Bool
unfolding member member_int atoi is_data_command
skipped c cmd =
    nonempty c.command_filters && not (member cmd.name c.command_filters)
    || bytes_eq cmd.name (codes "SELECT") && nonempty c.databases && blocked_select c cmd.args
    || nonempty c.databases
      && is_data_command cmd.name
      && not (member_int (pos c.storage.current_db) c.databases)

-- `updateStats` with the counters of a command that was executed.
unfoldable pub count_command : Client → Client
count_command c = record c {
  commands_processed = c.commands_processed + 1;
  replication_offset = c.replication_offset + 1;
}

abbrev pub executed : Client → Outcome Memory → Outcome Client
executed c none = none
executed c (some (err e, s)) = some (err e, record c { storage = s })
executed c (some (ok u, s)) = some (ok tt, count_command (record c { storage = s }))

module _ (hash : Bytes → ℕ) (choose : Shard → ℕ) where
  abbrev pub execute_set : ℕ → List Bytes → Memory → Outcome Memory
  execute_set now (key ∷ bytes ∷ rest) s = done (set_key hash choose now key bytes none s)
  execute_set now _ s = some (err set_arguments, s)

  -- `executeCommand`
  unfoldable pub execute_command : ℕ → Command → Memory → Outcome Memory
  unfolding set_key del select_db atoi
  execute_command now cmd s =
      if bytes_eq cmd.name (codes "SET")
      then execute_set now cmd.args s
      else (if bytes_eq cmd.name (codes "DEL")
          then done (del hash cmd.args s)
          else (if bytes_eq cmd.name (codes "SELECT")
              then execute_select cmd.args s
              else some (ok tt, s)))

  abbrev pub process_parsed : ℕ → Client → Result CommandError Command → Outcome Client
  process_parsed now c (err e) = some (err (parse_failed e), c)
  process_parsed now c (ok cmd) =
      if skipped c cmd then some (ok tt, c) else executed c (execute_command now cmd c.storage)

  -- `processCommand`
  unfoldable pub process_command : ℕ → Value → Client → Outcome Client
  unfolding parse_command skipped execute_command count_command
  process_command now v c = process_parsed now c (parse_command v)

  -- The commands of `streamCommands`, each with the reading of the clock: an error is logged, and the
  -- next command is read.
  abbrev pub and_then : (Client → Option Client) → Outcome Client → Option Client
  and_then f none = none
  and_then f (some (r, c)) = f c

  unfoldable pub process_stream : List (ℕ × Value) → Client → Option Client
  unfolding process_command
  process_stream [] c = some c
  process_stream ((now, v) ∷ vs) c = and_then (process_stream vs) (process_command now v c)
