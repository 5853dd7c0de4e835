-- ===== src/Server/Answers/Reads.antt =====
-- What a client reads.
use redis_inmemory_replica.Base.{
  ℕ, ◌≤◌, ◌≡◌, refl, ap, ◌∙◌, true, false, [], ◌∷◌, ◌++◌, Bytes, codes, Option, none, some,
}
use redis_inmemory_replica.Protocol.Writer.{write_bulk_string, write_null_bulk_string}
use redis_inmemory_replica.Protocol.Command.{Command}
use redis_inmemory_replica.Storage.Memory.WellFormed.{IsWellFormed, view}
use redis_inmemory_replica.Storage.Memory.Methods.{live, reply, get-refines}
use redis_inmemory_replica.Server.{Session, with_storage, after_call}
use redis_inmemory_replica.Server.Replies.{reply_bulk, reply_null}
use redis_inmemory_replica.Server.Data.{is_loading, get_ready, handle_get, bulk_or_null}
use redis_inmemory_replica.Server.Dispatch.{World, execute_command, run_handler, counted}

abbrev pub get_command : Bytes → Command
get_command key = record { name = codes "GET"; args = key ∷ [] }

abbrev pub bulk_reply : Option Bytes → Bytes
bulk_reply none = write_null_bulk_string
bulk_reply (some bytes) = write_bulk_string bytes

module _ {L : Type 0} where
  bulk_or_null-sent :
      (o : Option Bytes) (c : Session L)
      → (d : Session L) × (bulk_or_null o c ≡ some d) × (d.sent ≡ c.sent ++ bulk_reply o)
  unfolding reply_bulk reply_null
  bulk_or_null-sent none c = (_, refl, refl)
  bulk_or_null-sent (some bytes) c = (_, refl, refl)

-- An authenticated client that sends GET, once the first synchronisation is complete, gets the bytes of
-- the value that is live under the key in the current database of a well-formed engine, and the null
-- reply where there is none. The clock does not run back between its first two readings.
pub execute_command-get :
    {L : Type 0} (world : World L) (clock : ℕ → ℕ) (key : Bytes) (c : Session L)
    → IsWellFormed world.hash c.server.storage
    → clock 0 ≤ clock 1
    → c.authenticated ≡ true
    → is_loading c.server.sync ≡ false
    → (d : Session L) × (execute_command world clock (get_command key) c ≡ some d)
      × (d.sent
          ≡ c.sent
            ++ bulk_reply (
                reply (
                  live
                    (clock 0)
                    (view world.hash c.server.storage c.server.storage.current_db key))))
unfolding execute_command run_handler handle_get
execute_command-get world clock key c w step a ready =
    let (s', found, same) =
      get-refines world.hash c.server.storage (clock 0) (clock 1) key w step in
    let (d, run, sent) =
      bulk_or_null-sent
        (reply (live (clock 0) (view world.hash c.server.storage c.server.storage.current_db key)))
        (with_storage (counted c) s') in
    (
      d,
      passes
          ∙ ap (λ b. get_ready world.hash clock key b (counted c)) ready
          ∙ ap (after_call (counted c) bulk_or_null) found
          ∙ run,
      sent,
    )
  where
    passes :
        execute_command world clock (get_command key) c
        ≡ get_ready world.hash clock key (is_loading c.server.sync) (counted c)
    passes = rw a refl
