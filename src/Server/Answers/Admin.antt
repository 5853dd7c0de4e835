-- ===== src/Server/Answers/Admin.antt =====
-- The handlers that do not look at the keys answer with one reply.
use redis_inmemory_replica.Base.{
  ℕ, true, inl, inr, List, [], ◌∷◌, Bytes, codes, bytes_eq, Option, pos, Bool-cases, arith,
}
use redis_inmemory_replica.Protocol.Command.{to_upper}
use redis_inmemory_replica.Server.{Session}
use redis_inmemory_replica.Server.Items.{Item, Items}
use redis_inmemory_replica.Server.Replies.{reply_string, reply_error}
use redis_inmemory_replica.Server.Data.{arity_error}
use redis_inmemory_replica.Server.Admin.{
  to_lower, role_items, config_items, handle_auth, handle_ping, handle_role, handle_command,
  handle_config_get, handle_config, handle_read_only,
}
use redis_inmemory_replica.Server.Answers.{
  Ready, Answers, reply_string-Answers, reply_error-Answers, reply_bulk-Answers,
  reply_integer-Answers, reply_array-Answers,
}

module _ (hash : Bytes → ℕ) (clock : ℕ → ℕ) {L : Type 0} (c : Session L) where
  abbrev Answered : Option (Session L) → Type 0
  Answered = Answers hash clock c

  pub ok_reply : (d : Session L) → Ready hash clock c d → Answered (reply_string (codes "OK") d)
  ok_reply d p = reply_string-Answers hash clock c d (codes "OK") (omega arith, (omega arith, tt)) p

  pub failed_reply : (s : Bytes) (d : Session L) → Ready hash clock c d → Answered (reply_error s d)
  failed_reply s d p = reply_error-Answers hash clock c d s p

  pub handle_auth-Answers :
      (args : List Bytes) (d : Session L) → Ready hash clock c d → Answered (handle_auth args d)
  unfolding handle_auth
  handle_auth-Answers [] d p = failed_reply (arity_error (codes "auth")) d p
  handle_auth-Answers (word ∷ []) d p = elim (Bool-cases (bytes_eq d.server.password [])) [
    | inl on ↦ rw on (failed_reply (codes "ERR Client sent AUTH, but no password is set") d p)
    | inr off ↦ elim (Bool-cases (bytes_eq word d.server.password)) [
      | inl on ↦
          rw (off, on)
            (ok_reply (record d { authenticated = true })
              (record { unseen = p.unseen; unsent = p.unsent; closing = p.closing }))
      | inr miss ↦ rw (off, miss) (failed_reply (codes "ERR invalid password") d p)
    ]
  ]
  handle_auth-Answers (_ ∷ _ ∷ _) d p = failed_reply (arity_error (codes "auth")) d p

  pub handle_ping-Answers :
      (args : List Bytes) (d : Session L) → Ready hash clock c d → Answered (handle_ping args d)
  unfolding handle_ping
  handle_ping-Answers [] d p =
      reply_string-Answers hash clock c d (codes "PONG")
        (omega arith, (omega arith, (omega arith, (omega arith, tt)))) p
  handle_ping-Answers (message ∷ []) d p = reply_bulk-Answers hash clock c d message p
  handle_ping-Answers (_ ∷ _ ∷ _) d p = failed_reply (arity_error (codes "ping")) d p

  pub handle_read_only-Answers :
      (args : List Bytes) (d : Session L)
      → Ready hash clock c d
      → Answered (handle_read_only args d)
  unfolding handle_read_only
  handle_read_only-Answers [] d p = ok_reply d p
  handle_read_only-Answers (_ ∷ _) d p = failed_reply (arity_error (codes "readonly")) d p

  module _ (print : Item → Bytes) where
    pub handle_role-Answers :
        (args : List Bytes) (d : Session L)
        → Ready hash clock c d
        → Answered (handle_role print args d)
    unfolding handle_role
    handle_role-Answers [] d p =
        reply_array-Answers hash clock print c d
          (Items.more (Item.text (codes "slave")) (role_items d.server.sync)) p
    handle_role-Answers (_ ∷ _) d p = failed_reply (arity_error (codes "role")) d p

    pub handle_command-Answers :
        (args : List Bytes) (d : Session L)
        → Ready hash clock c d
        → Answered (handle_command print args d)
    unfolding handle_command
    handle_command-Answers [] d p = reply_integer-Answers hash clock c d (pos 20) p
    handle_command-Answers (sub ∷ rest) d p =
        elim (Bool-cases (bytes_eq (to_upper sub) (codes "DOCS"))) [
          | inl on ↦ rw on (reply_array-Answers hash clock print c d Items.none p)
          | inr off ↦ rw off (failed_reply (codes "ERR unknown COMMAND subcommand") d p)
        ]

    handle_config_get-Answers :
        (args : List Bytes) (d : Session L)
        → Ready hash clock c d
        → Answered (handle_config_get print args d)
    unfolding handle_config_get
    handle_config_get-Answers [] d p = failed_reply (arity_error (codes "config get")) d p
    handle_config_get-Answers (parameter ∷ []) d p =
        reply_array-Answers hash clock print c d (config_items (to_lower parameter)) p
    handle_config_get-Answers (_ ∷ _ ∷ _) d p = failed_reply (arity_error (codes "config get")) d p

    pub handle_config-Answers :
        (args : List Bytes) (d : Session L)
        → Ready hash clock c d
        → Answered (handle_config print args d)
    unfolding handle_config
    handle_config-Answers [] d p = failed_reply (arity_error (codes "config")) d p
    handle_config-Answers (sub ∷ rest) d p =
        elim (Bool-cases (bytes_eq (to_upper sub) (codes "GET"))) [
          | inl on ↦ rw on (handle_config_get-Answers rest d p)
          | inr off ↦ rw off (
              failed_reply (codes "ERR Unknown CONFIG subcommand or wrong number of arguments") d p)
        ]
