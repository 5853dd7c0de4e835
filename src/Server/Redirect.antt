-- ===== src/Server/Redirect.antt =====
-- `redirectToMaster`, `writeCommandToMaster` and `forwardResponse` of server/server.go. The network is a
-- parameter: dialling gives a connection or an error, and so does every write on it, given all that was
-- written so far, the last write first, with the bytes that the master sends then.
use redis_inmemory_replica.Base.{
  Bool, true, false, List, [], ◌∷◌, ◌++◌, Bytes, codes, bytes_eq, Option, none, some, Result, ok,
  err, pos, ◌==◌, if◌then◌else◌,
}
use redis_inmemory_replica.Protocol.Types.{
  Value, Values, value, type_simple_string, type_error, type_integer, type_bulk_string, type_array,
  kind_of, payload,
}
use redis_inmemory_replica.Protocol.Reader.{Error, read_next}
use redis_inmemory_replica.Protocol.Writer.{write_value}
use redis_inmemory_replica.Protocol.Command.{Command}
use redis_inmemory_replica.Server.{Act}
use redis_inmemory_replica.Server.Items.{Item, to_items, bulk_values}
use redis_inmemory_replica.Server.Replies.{
  reply_string, reply_error, reply_bulk, reply_null, reply_integer, reply_array,
}

pub record Connection : Type 0 where
  pub deadline : Option Bytes
  pub write : List Bytes → Result Bytes Bytes

abbrev pub Dial : Type 0
Dial = Bytes → Result Bytes Connection

-- Why an exchange with the master failed.
pub data ExchangeError : Type 0 where
  send_failed : Bytes → ExchangeError
  read_failed : Error → ExchangeError

-- The value that was read, what is left of the stream, and the writes.
abbrev pub Exchanged : Type 0
Exchanged = Result ExchangeError (Value × Bytes × List Bytes)

abbrev pub exchanged : List Bytes → Result Error Value × Bytes → Exchanged
exchanged writes (err e, rest) = err (read_failed e)
exchanged writes (ok v, rest) = ok (v, rest, writes)

abbrev pub answered : List Bytes → Bytes → Result Bytes Bytes → Exchanged
answered writes unread (err text) = err (send_failed text)
answered writes unread (ok bytes) = exchanged writes (read_next (unread ++ bytes))

abbrev pub send_bytes : Connection → List Bytes → Bytes → Option Bytes → Exchanged
send_bytes conn writes unread none = err (send_failed [])
send_bytes conn writes unread (some bytes) =
    answered (bytes ∷ writes) unread (conn.write (bytes ∷ writes))

-- `writeCommandToMaster`, and the read of the answer. The values can always be written.
unfoldable pub exchange : Connection → List Bytes → Bytes → Command → Exchanged
unfolding read_next write_value
exchange conn writes unread cmd =
    send_bytes conn writes unread
      (write_value (value type_array [] (pos 0) (bulk_values (cmd.name ∷ cmd.args)) false))

module _ {L : Type 0} (print : Item → Bytes) (describe : Error → Bytes) where
  abbrev pub forward_bulk : Bytes → Bool → Act L
  forward_bulk bytes true = reply_null
  forward_bulk bytes false = reply_bulk bytes

  abbrev pub forward_array : Values → Bool → Act L
  forward_array vs true = reply_null
  forward_array vs false = reply_array print (to_items vs)

  -- `forwardResponse`
  unfoldable pub forward_response : Value → Act L
  unfolding to_items reply_string reply_error reply_bulk reply_null reply_integer reply_array
  forward_response (value t d n vs null) =
      if t == type_simple_string
      then reply_string d
      else if t == type_error
      then reply_error d
      else if t == type_integer
      then reply_integer n
      else if t == type_bulk_string
      then forward_bulk d null
      else if t == type_array
      then forward_array vs null
      else reply_error (codes "ERR unsupported response type from master")

  abbrev pub answer_command : Exchanged → Act L
  answer_command (err (send_failed text)) =
      reply_error (codes "ERR failed to send command to master: " ++ text)
  answer_command (err (read_failed e)) =
      reply_error (codes "ERR failed to read response from master: " ++ describe e)
  answer_command (ok (v, rest, writes)) = forward_response v

  abbrev pub after_auth : Connection → Command → Exchanged → Act L
  after_auth conn cmd (err (send_failed text)) =
      reply_error (codes "ERR failed to send auth to master: " ++ text)
  after_auth conn cmd (err (read_failed e)) =
      reply_error (codes "ERR failed to read auth response: " ++ describe e)
  after_auth conn cmd (ok (v, rest, writes)) =
      if kind_of v == type_error
      then reply_error (payload v)
      else answer_command (exchange conn writes rest cmd)

  abbrev pub over : Connection → Option Bytes → Command → Act L
  over conn (some text) cmd c =
      reply_error (codes "ERR failed to set connection deadline: " ++ text) c
  over conn none cmd c =
      if bytes_eq c.server.master_password []
      then answer_command (exchange conn [] [] cmd) c
      else after_auth conn cmd
          (exchange conn [] []
            (record { name = codes "AUTH"; args = c.server.master_password ∷ [] }))
          c

  abbrev pub dialled : Command → Result Bytes Connection → Act L
  dialled cmd (err text) = reply_error (codes "ERR failed to connect to master: " ++ text)
  dialled cmd (ok conn) = over conn conn.deadline cmd

  -- `redirectToMaster`
  unfoldable pub redirect_to_master : Dial → Command → Act L
  unfolding bytes_eq exchange forward_response reply_error
  redirect_to_master dial cmd c =
      if bytes_eq c.server.master_addr []
      then reply_error (codes "ERR master address not configured for write redirection") c
      else dialled cmd (dial c.server.master_addr) c

  -- `handleSet` and `handleDel`
  unfoldable pub handle_write : Dial → Command → Act L
  unfolding redirect_to_master reply_error
  handle_write dial cmd c =
      if c.server.redirect_writes
      then redirect_to_master dial cmd c
      else reply_error (codes "READONLY You can't write against a read only replica") c
