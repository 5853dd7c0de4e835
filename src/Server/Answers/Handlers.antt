-- ===== src/Server/Answers/Handlers.antt =====
-- Every handler that reads the engine answers with one reply, and no client can see what it did there.
use redis_inmemory_replica.Base.{
  ℕ, Bool, true, false, List, [], ◌∷◌, ◌++◌, Bytes, codes, Option, none, some, ℤ, pos, arith,
}
use redis_inmemory_replica.Protocol.Integer.{format_int}
use redis_inmemory_replica.Protocol.Reader.Lines.{IsLine}
use redis_inmemory_replica.Replication.Apply.{atoi}
use redis_inmemory_replica.Storage.Value.{
  ValueType, string, list, set, zset, hash, stream, type_name,
}
use redis_inmemory_replica.Storage.Memory.Access.{get, ttl, key_type}
use redis_inmemory_replica.Storage.Memory.Batch.{exists}
use redis_inmemory_replica.Storage.Memory.Keyspace.{key_count}
use redis_inmemory_replica.Server.{Session, Act}
use redis_inmemory_replica.Server.Items.{Item}
use redis_inmemory_replica.Server.Data.{
  arity_error, loading_error, is_loading, ttl_units, select_call, selected_reply, select_number,
  handle_select, bulk_or_null, handle_db_size, get_ready, handle_get, get_values, get_all_ready,
  handle_mget, handle_exists, handle_ttl, handle_pttl, handle_type,
}
use redis_inmemory_replica.Server.Answers.{
  Ready, Answers, reply_string-Answers, reply_error-Answers, reply_bulk-Answers, reply_null-Answers,
  reply_integer-Answers, reply_array-Answers, call-Answers,
}
use redis_inmemory_replica.Server.Answers.Storage.{
  Runs, get-Returns, get_values-Returns, exists-Returns, ttl-Returns, key_type-Returns,
  key_count-Returns, select_call-Returns,
}

type_name-IsLine : (t : ValueType) → IsLine (type_name t)
unfolding type_name
type_name-IsLine string =
    (omega arith, (omega arith, (omega arith, (omega arith, (omega arith, (omega arith, tt))))))
type_name-IsLine list = (omega arith, (omega arith, (omega arith, (omega arith, tt))))
type_name-IsLine set = (omega arith, (omega arith, (omega arith, tt)))
type_name-IsLine zset = (omega arith, (omega arith, (omega arith, (omega arith, tt))))
type_name-IsLine hash = (omega arith, (omega arith, (omega arith, (omega arith, tt))))
type_name-IsLine stream =
    (omega arith, (omega arith, (omega arith, (omega arith, (omega arith, (omega arith, tt))))))

module _ (hash : Bytes → ℕ) (clock : ℕ → ℕ) {L : Type 0} (c : Session L) where
  abbrev Answered : Option (Session L) → Type 0
  Answered = Answers hash clock c

  select_number-Answers :
      (o : Option ℤ) (d : Session L) → Ready hash clock c d → Answered (select_number o d)
  select_number-Answers none d p =
      reply_error-Answers hash clock c d (codes "ERR invalid DB index") p
  select_number-Answers (some db) d p =
      call-Answers hash clock (select_call db) (selected_reply db) c d
        (select_call-Returns hash clock db) selected p
    where
      selected :
          (done : Bool) (e : Session L) → Ready hash clock c e → Answered (selected_reply db done e)
      selected true e q =
          reply_string-Answers hash clock c (record e { db = db }) (codes "OK")
            (omega arith, (omega arith, tt))
            (record { unseen = q.unseen; unsent = q.unsent; closing = q.closing })
      selected false e q =
          reply_error-Answers hash clock c e
            (codes "ERR invalid database number: " ++ format_int db) q

  pub handle_select-Answers :
      (args : List Bytes) (d : Session L) → Ready hash clock c d → Answered (handle_select args d)
  unfolding handle_select
  handle_select-Answers [] d p = reply_error-Answers hash clock c d (arity_error (codes "select")) p
  handle_select-Answers (arg ∷ []) d p = select_number-Answers (atoi arg) d p
  handle_select-Answers (arg ∷ _ ∷ _) d p =
      reply_error-Answers hash clock c d (arity_error (codes "select")) p

  pub handle_db_size-Answers :
      (args : List Bytes) (d : Session L) → Ready hash clock c d → Answered (handle_db_size args d)
  unfolding handle_db_size
  handle_db_size-Answers [] d p =
      call-Answers hash clock key_count _ c d (key_count-Returns hash clock)
        (λ n e q. reply_integer-Answers hash clock c e (pos n) q) p
  handle_db_size-Answers (_ ∷ _) d p =
      reply_error-Answers hash clock c d (arity_error (codes "dbsize")) p

  bulk_or_null-Answers :
      (o : Option Bytes) (d : Session L) → Ready hash clock c d → Answered (bulk_or_null o d)
  bulk_or_null-Answers none d p = reply_null-Answers hash clock c d p
  bulk_or_null-Answers (some b) d p = reply_bulk-Answers hash clock c d b p

  pub handle_get-Answers :
      Runs hash clock
      → (args : List Bytes) (d : Session L) → Ready hash clock c d
      → Answered (handle_get hash clock args d)
  unfolding handle_get
  handle_get-Answers runs [] d p = reply_error-Answers hash clock c d (arity_error (codes "get")) p
  handle_get-Answers runs (key ∷ []) d p = ready (is_loading d.server.sync)
    where
      ready : (b : Bool) → Answered (get_ready hash clock key b d)
      ready true = reply_error-Answers hash clock c d loading_error p
      ready false =
          call-Answers hash clock (get hash (clock 0) (clock 1) key) bulk_or_null c d
            (get-Returns hash clock 0 key runs) bulk_or_null-Answers p
  handle_get-Answers runs (_ ∷ _ ∷ _) d p =
      reply_error-Answers hash clock c d (arity_error (codes "get")) p

  pub handle_exists-Answers :
      (args : List Bytes) (d : Session L)
      → Ready hash clock c d
      → Answered (handle_exists hash clock args d)
  unfolding handle_exists
  handle_exists-Answers [] d p = reply_error-Answers hash clock c d (arity_error (codes "exists")) p
  handle_exists-Answers (key ∷ rest) d p =
      call-Answers hash clock (exists hash clock (key ∷ rest)) _ c d
        (exists-Returns hash clock clock (key ∷ rest))
        (λ n e q. reply_integer-Answers hash clock c e (pos n) q) p

  ttl-Answers :
      (unit : ℕ) (key : Bytes) (d : Session L)
      → Ready hash clock c d
      → Answered (
          redis_inmemory_replica.Server.call
            (ttl hash (clock 0) (clock 1) key)
            (λ t. redis_inmemory_replica.Server.Replies.reply_integer (ttl_units unit t))
            d)
  ttl-Answers unit key d p =
      call-Answers hash clock (ttl hash (clock 0) (clock 1) key) _ c d
        (ttl-Returns hash clock (clock 0) (clock 1) key)
        (λ t e q. reply_integer-Answers hash clock c e (ttl_units unit t) q) p

  pub handle_ttl-Answers :
      (args : List Bytes) (d : Session L)
      → Ready hash clock c d
      → Answered (handle_ttl hash clock args d)
  unfolding handle_ttl
  handle_ttl-Answers [] d p = reply_error-Answers hash clock c d (arity_error (codes "ttl")) p
  handle_ttl-Answers (key ∷ []) d p = ttl-Answers 1000000000 key d p
  handle_ttl-Answers (_ ∷ _ ∷ _) d p =
      reply_error-Answers hash clock c d (arity_error (codes "ttl")) p

  pub handle_pttl-Answers :
      (args : List Bytes) (d : Session L)
      → Ready hash clock c d
      → Answered (handle_pttl hash clock args d)
  unfolding handle_pttl
  handle_pttl-Answers [] d p = reply_error-Answers hash clock c d (arity_error (codes "pttl")) p
  handle_pttl-Answers (key ∷ []) d p = ttl-Answers 1000000 key d p
  handle_pttl-Answers (_ ∷ _ ∷ _) d p =
      reply_error-Answers hash clock c d (arity_error (codes "pttl")) p

  pub handle_type-Answers :
      (args : List Bytes) (d : Session L)
      → Ready hash clock c d
      → Answered (handle_type hash clock args d)
  unfolding handle_type
  handle_type-Answers [] d p = reply_error-Answers hash clock c d (arity_error (codes "type")) p
  handle_type-Answers (key ∷ []) d p =
      call-Answers hash clock (key_type hash (clock 0) key) _ c d
        (key_type-Returns hash clock (clock 0) key)
        (λ t e q. reply_string-Answers hash clock c e (type_name t) (type_name-IsLine t) q) p
  handle_type-Answers (_ ∷ _ ∷ _) d p =
      reply_error-Answers hash clock c d (arity_error (codes "type")) p

  module _ (print : Item → Bytes) where
    pub handle_mget-Answers :
        Runs hash clock
        → (args : List Bytes) (d : Session L) → Ready hash clock c d
        → Answered (handle_mget hash clock print args d)
    unfolding handle_mget
    handle_mget-Answers runs [] d p =
        reply_error-Answers hash clock c d (arity_error (codes "mget")) p
    handle_mget-Answers runs (key ∷ rest) d p = ready (is_loading d.server.sync)
      where
        ready : (b : Bool) → Answered (get_all_ready hash clock print (key ∷ rest) b d)
        ready true = reply_error-Answers hash clock c d loading_error p
        ready false =
            call-Answers hash clock (get_values hash clock 0 (key ∷ rest)) _ c d
              (get_values-Returns hash clock 0 (key ∷ rest) runs)
              (λ is e q. reply_array-Answers hash clock print c e is q) p
