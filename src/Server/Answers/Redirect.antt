-- ===== src/Server/Answers/Redirect.antt =====
-- A write is refused, or the reply of the master is passed on.
use mathlib.Core.Path.{subst}
use redis_inmemory_replica.Base.{
  ℕ, ◌≡◌, refl, sym, Bool, true, false, inl, inr, List, [], ◌∷◌, ◌++◌, Bytes, codes, bytes_eq,
  Option, none, some, Result, ok, err, Bool-cases, ◌==◌, if◌then◌else◌,
}
use redis_inmemory_replica.Protocol.Types.{Value, type_error, kind_of, payload}
use redis_inmemory_replica.Protocol.Reader.{Error, read_next}
use redis_inmemory_replica.Protocol.Command.{Command}
use redis_inmemory_replica.Protocol.Resp.{Resp, to_value, to_values, Fits}
use redis_inmemory_replica.Protocol.Resp.Canonical.{IsReply, read_next-IsReply}
use redis_inmemory_replica.Server.{Session}
use redis_inmemory_replica.Server.Items.{Item, to_items}
use redis_inmemory_replica.Server.Replies.{reply_error}
use redis_inmemory_replica.Server.Redirect.{
  Connection, Dial, send_failed, read_failed, Exchanged, exchanged, answered, send_bytes, exchange,
  forward_response, answer_command, after_auth, over, dialled, redirect_to_master, handle_write,
}
use redis_inmemory_replica.Server.Answers.{
  Ready, Answers, reply_string-Answers, reply_bulk-Answers, reply_null-Answers,
  reply_integer-Answers, reply_array-Answers,
}
use redis_inmemory_replica.Server.Answers.Admin.{failed_reply}

-- What was read from the master is a reply.
abbrev IsGood : Exchanged → Type 0
IsGood (err e) = Unit
IsGood (ok (v, rest, writes)) = IsReply v

exchanged-IsGood :
    (writes : List Bytes) (s : Bytes) (r : Result Error Value × Bytes)
    → read_next s ≡ r
    → IsGood (exchanged writes r)
exchanged-IsGood writes s (err e, rest) h = tt
exchanged-IsGood writes s (ok v, rest) h = read_next-IsReply s v rest h

send_bytes-IsGood :
    (conn : Connection) (writes : List Bytes) (unread : Bytes) (o : Option Bytes)
    → IsGood (send_bytes conn writes unread o)
send_bytes-IsGood conn writes unread none = tt
send_bytes-IsGood conn writes unread (some bytes) = split (conn.write (bytes ∷ writes))
  where
    split : (r : Result Bytes Bytes) → IsGood (answered (bytes ∷ writes) unread r)
    split (err text) = tt
    split (ok more) =
        exchanged-IsGood (bytes ∷ writes) (unread ++ more) (read_next (unread ++ more)) refl

exchange-IsGood :
    (conn : Connection) (writes : List Bytes) (unread : Bytes) (cmd : Command)
    → IsGood (exchange conn writes unread cmd)
unfolding exchange
exchange-IsGood conn writes unread cmd = send_bytes-IsGood conn writes unread _

module _ (hash : Bytes → ℕ) (clock : ℕ → ℕ) {L : Type 0} (c : Session L) where
  abbrev Answered : Option (Session L) → Type 0
  Answered = Answers hash clock c

  module _ (print : Item → Bytes) where
    module _ (describe : Error → Bytes) where
      forward_response-Answers :
          (r : Resp) (d : Session L)
          → Fits r
          → Ready hash clock c d
          → Answered (forward_response print describe (to_value r) d)
      unfolding forward_response to_value
      forward_response-Answers (Resp.simple s) d (Fits.simple h) p =
          reply_string-Answers hash clock c d s h p
      forward_response-Answers (Resp.error s) d h p = failed_reply hash clock c s d p
      forward_response-Answers (Resp.bulk s) d h p = reply_bulk-Answers hash clock c d s p
      forward_response-Answers (Resp.number n) d h p = reply_integer-Answers hash clock c d n p
      forward_response-Answers Resp.null_bulk d h p = reply_null-Answers hash clock c d p
      forward_response-Answers Resp.null_array d h p = reply_null-Answers hash clock c d p
      forward_response-Answers (Resp.items rs) d h p =
          reply_array-Answers hash clock print c d (to_items (to_values rs)) p

      answer_command-Answers :
          (e : Exchanged) (d : Session L)
          → IsGood e
          → Ready hash clock c d
          → Answered (answer_command print describe e d)
      answer_command-Answers (err (send_failed text)) d g p = failed_reply hash clock c _ d p
      answer_command-Answers (err (read_failed e)) d g p = failed_reply hash clock c _ d p
      answer_command-Answers (ok (v, rest, writes)) d (r, same, fits) p =
          subst (λ u. Answered (forward_response print describe u d)) (sym same)
            (forward_response-Answers r d fits p)

      after_auth-Answers :
          (conn : Connection) (cmd : Command) (e : Exchanged) (d : Session L)
          → Ready hash clock c d
          → Answered (after_auth print describe conn cmd e d)
      after_auth-Answers conn cmd (err (send_failed text)) d p = failed_reply hash clock c _ d p
      after_auth-Answers conn cmd (err (read_failed e)) d p = failed_reply hash clock c _ d p
      after_auth-Answers conn cmd (ok (v, rest, writes)) d p =
          elim (Bool-cases (kind_of v == type_error)) [
            | inl on ↦ rw on (failed_reply hash clock c (payload v) d p)
            | inr off ↦ rw off (
                answer_command-Answers (exchange conn writes rest cmd) d
                  (exchange-IsGood conn writes rest cmd) p)
          ]

      over-Answers :
          (conn : Connection) (o : Option Bytes) (cmd : Command) (d : Session L)
          → Ready hash clock c d
          → Answered (over print describe conn o cmd d)
      over-Answers conn (some text) cmd d p = failed_reply hash clock c _ d p
      over-Answers conn none cmd d p = elim (Bool-cases (bytes_eq d.server.master_password [])) [
        | inl on ↦
            rw on (
              answer_command-Answers (exchange conn [] [] cmd) d (exchange-IsGood conn [] [] cmd) p)
        | inr off ↦ rw off (
            after_auth-Answers conn cmd
              (exchange conn [] []
                (record { name = codes "AUTH"; args = d.server.master_password ∷ [] }))
              d p)
      ]

      redirect_to_master-Answers :
          (dial : Dial) (cmd : Command) (d : Session L)
          → Ready hash clock c d
          → Answered (redirect_to_master print describe dial cmd d)
      unfolding redirect_to_master
      redirect_to_master-Answers dial cmd d p =
          elim (Bool-cases (bytes_eq d.server.master_addr [])) [
            | inl on ↦ rw on (
                failed_reply hash clock c
                  (codes "ERR master address not configured for write redirection") d p)
            | inr off ↦ rw off (split (dial d.server.master_addr))
          ]
        where
          split : (r : Result Bytes Connection) → Answered (dialled print describe cmd r d)
          split (err text) =
              failed_reply hash clock c (codes "ERR failed to connect to master: " ++ text) d p
          split (ok conn) = over-Answers conn conn.deadline cmd d p

      pub handle_write-Answers :
          (dial : Dial) (cmd : Command) (d : Session L)
          → Ready hash clock c d
          → Answered (handle_write print describe dial cmd d)
      unfolding handle_write
      handle_write-Answers dial cmd d p = split d.server.redirect_writes
        where
          split :
              (b : Bool)
              → Answered (
                  if b
                  then redirect_to_master print describe dial cmd d
                  else reply_error (codes "READONLY You can't write against a read only replica") d)
          split true = redirect_to_master-Answers dial cmd d p
          split false =
              failed_reply hash clock c
                (codes "READONLY You can't write against a read only replica") d p
