-- ===== src/Server/Data.antt =====
-- The handlers of server/server.go that read the engine. `clock` gives the readings of the clock
-- while one command is handled, in their order.
use redis_inmemory_replica.Base.{
  ℕ, ◌+◌, ◌-◌, ◌/◌, ◌∷◌, Bool, true, false, not, List, [], ◌++◌, Bytes, codes, bytes_eq, Option,
  none, some, ℤ, pos, negsuc, neg, Result, ok, err, ltb, ◌==◌, if◌then◌else◌,
}
use redis_inmemory_replica.Protocol.Command.{to_upper, upper_byte}
use redis_inmemory_replica.Protocol.Integer.{decimal, format_int}
use redis_inmemory_replica.Replication.Apply.{atoi}
use redis_inmemory_replica.Storage.Value.{type_name}
use redis_inmemory_replica.Storage.Memory.{M, pure, ◌>>=◌}
use redis_inmemory_replica.Storage.Memory.Access.{Ttl, no_key, no_expiry, until, get, ttl, key_type}
use redis_inmemory_replica.Storage.Memory.Batch.{exists}
use redis_inmemory_replica.Storage.Memory.Keyspace.{keys, key_count, select_db}
use redis_inmemory_replica.Storage.Memory.Scan.{scan_keys}
use redis_inmemory_replica.Server.{SyncStatus, Act, call}
use redis_inmemory_replica.Server.Items.{Item, Items, texts}
use redis_inmemory_replica.Server.Replies.{
  reply_string, reply_error, reply_bulk, reply_null, reply_integer, reply_array,
}

-- `ERR wrong number of arguments for '…' command`
abbrev pub arity_error : Bytes → Bytes
arity_error name = codes "ERR wrong number of arguments for '" ++ name ++ codes "' command"

-- The first synchronisation is not complete.
abbrev pub is_loading : Option SyncStatus → Bool
is_loading none = false
is_loading (some status) = not status.initial_sync_completed

abbrev pub loading_error : Bytes
loading_error = codes "LOADING Redis is loading the dataset in memory"

abbrev pub value_item : Option Bytes → Item
value_item none = Item.null
value_item (some bytes) = Item.text bytes

-- The quotient of a span by a unit, towards zero.
abbrev pub whole_units : ℕ → ℕ → ℕ → ℤ
whole_units unit at now = if ltb at now then neg ((now - at) / unit) else pos ((at - now) / unit)

-- What `TTL` and `PTTL` of the engine answer, in the unit that the client asks for. The float64 that
-- `Seconds` makes is taken as exact.
abbrev pub ttl_units : ℕ → Ttl → ℤ
ttl_units unit no_key = negsuc 1
ttl_units unit no_expiry = negsuc 0
ttl_units unit (until at now) = whole_units unit at now

-- The error of the optional arguments of `SCAN`.
pub data ScanError : Type 0 where
  syntax_error invalid_count : ScanError

abbrev pub with_count : (ℤ → Result ScanError (Bytes × ℤ)) → Option ℤ → Result ScanError (Bytes × ℤ)
with_count next none = err invalid_count
with_count next (some (negsuc n)) = err invalid_count
with_count next (some (pos n)) = if n == 0 then err invalid_count else next (pos n)

-- The loop over the optional arguments, from a pattern and a count.
unfoldable pub scan_options : List Bytes → Bytes → ℤ → Result ScanError (Bytes × ℤ)
unfolding upper_byte bytes_eq atoi
scan_options [] pattern count = ok (pattern, count)
scan_options (arg ∷ []) pattern count =
    if bytes_eq (to_upper arg) (codes "MATCH")
    then err syntax_error
    else if bytes_eq (to_upper arg) (codes "COUNT")
    then err syntax_error
    else ok (pattern, count)
scan_options (arg ∷ value ∷ rest) pattern count =
    let matched = scan_options rest value count in
    let counted = with_count (scan_options rest pattern) (atoi value) in
    let other = scan_options (value ∷ rest) pattern count in
    if bytes_eq (to_upper arg) (codes "MATCH")
    then matched
    else if bytes_eq (to_upper arg) (codes "COUNT")
    then counted
    else other

abbrev pub scan_error_text : ScanError → Bytes
scan_error_text syntax_error = codes "ERR syntax error"
scan_error_text invalid_count = codes "ERR invalid count"

-- `SelectDB` as a call.
abbrev pub select_call : ℤ → M Bool
select_call db s = let (s', done) = select_db db s in some (done, s')

module _ (hash : Bytes → ℕ) (clock : ℕ → ℕ) where
  -- The loop of `handleMGet`, from reading `i` of the clock.
  unfoldable pub get_values : ℕ → List Bytes → M Items
  unfolding get
  get_values i [] = pure Items.none
  get_values i (key ∷ rest) = do
    value ← get hash (clock i) (clock (i + 1)) key
    items ← get_values (i + 2) rest
    pure (Items.more (value_item value) items)

module _ {L : Type 0} where
  abbrev pub selected_reply : ℤ → Bool → Act L
  selected_reply db true c = reply_string (codes "OK") (record c { db = db })
  selected_reply db false c = reply_error (codes "ERR invalid database number: " ++ format_int db) c

  abbrev pub select_number : Option ℤ → Act L
  select_number none = reply_error (codes "ERR invalid DB index")
  select_number (some db) = call (select_call db) (selected_reply db)

  -- `handleSelect`
  unfoldable pub handle_select : List Bytes → Act L
  unfolding atoi select_db reply_string reply_error format_int
  handle_select (arg ∷ []) = select_number (atoi arg)
  handle_select _ = reply_error (arity_error (codes "select"))

  abbrev pub bulk_or_null : Option Bytes → Act L
  bulk_or_null none = reply_null
  bulk_or_null (some bytes) = reply_bulk bytes

  -- `handleDBSize`
  unfoldable pub handle_db_size : List Bytes → Act L
  unfolding key_count reply_integer reply_error
  handle_db_size [] = call key_count (λ n. reply_integer (pos n))
  handle_db_size _ = reply_error (arity_error (codes "dbsize"))

  module _ (hash : Bytes → ℕ) (clock : ℕ → ℕ) where
    abbrev pub get_ready : Bytes → Bool → Act L
    get_ready key true = reply_error loading_error
    get_ready key false = call (get hash (clock 0) (clock 1) key) bulk_or_null

    -- `handleGet`
    unfoldable pub handle_get : List Bytes → Act L
    unfolding get reply_null reply_bulk reply_error
    handle_get (key ∷ []) c = get_ready key (is_loading c.server.sync) c
    handle_get _ c = reply_error (arity_error (codes "get")) c

    -- `handleExists`
    unfoldable pub handle_exists : List Bytes → Act L
    unfolding exists reply_integer reply_error
    handle_exists [] = reply_error (arity_error (codes "exists"))
    handle_exists (key ∷ rest) = call (exists hash clock (key ∷ rest)) (λ n. reply_integer (pos n))

    -- `handleTTL`
    unfoldable pub handle_ttl : List Bytes → Act L
    unfolding ttl reply_integer reply_error
    handle_ttl (key ∷ []) =
        call (ttl hash (clock 0) (clock 1) key) (λ t. reply_integer (ttl_units 1000000000 t))
    handle_ttl _ = reply_error (arity_error (codes "ttl"))

    -- `handlePTTL`
    unfoldable pub handle_pttl : List Bytes → Act L
    unfolding ttl reply_integer reply_error
    handle_pttl (key ∷ []) =
        call (ttl hash (clock 0) (clock 1) key) (λ t. reply_integer (ttl_units 1000000 t))
    handle_pttl _ = reply_error (arity_error (codes "pttl"))

    -- `handleType`
    unfoldable pub handle_type : List Bytes → Act L
    unfolding key_type type_name reply_string reply_error
    handle_type (key ∷ []) = call (key_type hash (clock 0) key) (λ t. reply_string (type_name t))
    handle_type _ = reply_error (arity_error (codes "type"))

    module _ (print : Item → Bytes) where
      abbrev pub get_all_ready : List Bytes → Bool → Act L
      get_all_ready names true = reply_error loading_error
      get_all_ready names false = call (get_values hash clock 0 names) (reply_array print)

      -- `handleMGet`
      unfoldable pub handle_mget : List Bytes → Act L
      unfolding get_values reply_array reply_error
      handle_mget [] c = reply_error (arity_error (codes "mget")) c
      handle_mget (key ∷ rest) c = get_all_ready (key ∷ rest) (is_loading c.server.sync) c

      module _ (matches : Bytes → Bytes → Bool) where
        -- `handleKeys`
        unfoldable pub handle_keys : List Bytes → Act L
        unfolding keys reply_array reply_error
        handle_keys (pattern ∷ []) =
            call (keys matches clock pattern) (λ found. reply_array print (texts found))
        handle_keys _ = reply_error (arity_error (codes "keys"))

        abbrev pub scan_reply : ℕ × List Bytes → Act L
        scan_reply (cursor, found) = reply_array print (
            Items.more (Item.text (decimal cursor))
              (Items.more (Item.list (texts found)) Items.none))

        abbrev pub scan_from : ℤ → Result ScanError (Bytes × ℤ) → Act L
        scan_from cursor (err e) = reply_error (scan_error_text e)
        scan_from cursor (ok (pattern, count)) =
            call (scan_keys matches clock cursor pattern count) scan_reply

        abbrev pub scan_cursor : List Bytes → Option ℤ → Act L
        scan_cursor options none = reply_error (codes "ERR invalid cursor")
        scan_cursor options (some cursor) = scan_from cursor (scan_options options [] (pos 10))

        -- `handleScan`
        unfoldable pub handle_scan : List Bytes → Act L
        unfolding atoi scan_options scan_keys reply_array reply_error decimal
        handle_scan [] = reply_error (arity_error (codes "scan"))
        handle_scan (cursor ∷ options) = scan_cursor options (atoi cursor)
