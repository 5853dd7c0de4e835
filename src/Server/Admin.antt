-- ===== src/Server/Admin.antt =====
-- The handlers of server/server.go that do not look at the keys.
use redis_inmemory_replica.Base.{
  ℕ, ◌+◌, true, List, [], ◌∷◌, Bytes, codes, bytes_eq, map, Option, none, some, ℤ, pos, leb, ◌&&◌,
  ◌==◌, if◌then◌else◌,
}
use redis_inmemory_replica.Protocol.Command.{to_upper, upper_byte}
use redis_inmemory_replica.Replication.Apply.{atoi}
use redis_inmemory_replica.Server.{SyncStatus, Act}
use redis_inmemory_replica.Server.Items.{Item, Items, texts}
use redis_inmemory_replica.Server.Replies.{
  reply_string, reply_error, reply_bulk, reply_integer, reply_array,
}
use redis_inmemory_replica.Server.Data.{arity_error}

-- `strings.ToLower` on ASCII.
unfoldable pub lower_byte : ℕ → ℕ
lower_byte c = if leb b'A' c && leb c b'Z' then c + 32 else c

abbrev pub to_lower : Bytes → Bytes
to_lower = map lower_byte

-- A byte in front of the first part.
abbrev pub prepend : ℕ → List Bytes → List Bytes
prepend c [] = (c ∷ []) ∷ []
prepend c (part ∷ parts) = (c ∷ part) ∷ parts

-- `strings.Split(s, ":")`
unfoldable pub split_colon : Bytes → List Bytes
split_colon [] = [] ∷ []
split_colon (c ∷ s) = let parts = split_colon s in if c == b':' then [] ∷ parts else prepend c parts

abbrev pub port_item : Option ℤ → Item
port_item none = Item.int (pos 6379)
port_item (some port) = Item.int port

-- The host and the port of the master.
abbrev pub host_items : Bytes → List Bytes → Items → Items
host_items address (host ∷ port ∷ []) rest =
    Items.more (Item.text host) (Items.more (port_item (atoi port)) rest)
host_items address _ rest = Items.more (Item.text address) (Items.more (Item.int (pos 6379)) rest)

abbrev pub role_items : Option SyncStatus → Items
role_items none =
    Items.more (Item.text (codes "unknown"))
      (Items.more (Item.int (pos 6379)) (Items.more (Item.int (pos 0)) Items.none))
role_items (some status) =
    host_items status.master_host (split_colon status.master_host)
      (Items.more (Item.int status.replication_offset) Items.none)

abbrev pub config_items : Bytes → Items
config_items parameter =
    if bytes_eq parameter (codes "databases")
    then texts (codes "databases" ∷ codes "16" ∷ [])
    else if bytes_eq parameter (codes "*")
    then texts (codes "databases" ∷ codes "16" ∷ [])
    else Items.none

module _ {L : Type 0} where
  abbrev pub check_password : Bytes → Act L
  check_password word c =
      if bytes_eq c.server.password []
      then reply_error (codes "ERR Client sent AUTH, but no password is set") c
      else if bytes_eq word c.server.password
      then reply_string (codes "OK") (record c { authenticated = true })
      else reply_error (codes "ERR invalid password") c

  -- `handleAuth`
  unfoldable pub handle_auth : List Bytes → Act L
  unfolding bytes_eq reply_string reply_error
  handle_auth (word ∷ []) = check_password word
  handle_auth _ = reply_error (arity_error (codes "auth"))

  -- `handlePing`
  unfoldable pub handle_ping : List Bytes → Act L
  unfolding reply_string reply_bulk reply_error
  handle_ping [] = reply_string (codes "PONG")
  handle_ping (message ∷ []) = reply_bulk message
  handle_ping _ = reply_error (arity_error (codes "ping"))

  -- `handleReadOnly`
  unfoldable pub handle_read_only : List Bytes → Act L
  unfolding reply_string reply_error
  handle_read_only [] = reply_string (codes "OK")
  handle_read_only _ = reply_error (arity_error (codes "readonly"))

  module _ (print : Item → Bytes) where
    -- `handleRole`
    unfoldable pub handle_role : List Bytes → Act L
    unfolding atoi split_colon reply_array reply_error
    handle_role [] c =
        reply_array print (Items.more (Item.text (codes "slave")) (role_items c.server.sync)) c
    handle_role _ c = reply_error (arity_error (codes "role")) c

    -- `handleCommand`
    unfoldable pub handle_command : List Bytes → Act L
    unfolding upper_byte bytes_eq reply_integer reply_array reply_error
    handle_command [] = reply_integer (pos 20)
    handle_command (sub ∷ rest) =
        if bytes_eq (to_upper sub) (codes "DOCS")
        then reply_array print Items.none
        else reply_error (codes "ERR unknown COMMAND subcommand")

    -- `handleConfigGet`, on the arguments behind the subcommand.
    unfoldable pub handle_config_get : List Bytes → Act L
    unfolding lower_byte bytes_eq reply_array reply_error
    handle_config_get (parameter ∷ []) = reply_array print (config_items (to_lower parameter))
    handle_config_get _ = reply_error (arity_error (codes "config get"))

    -- `handleConfig`
    unfoldable pub handle_config : List Bytes → Act L
    unfolding upper_byte bytes_eq handle_config_get reply_error
    handle_config [] = reply_error (arity_error (codes "config"))
    handle_config (sub ∷ rest) =
        if bytes_eq (to_upper sub) (codes "GET")
        then handle_config_get rest
        else reply_error (codes "ERR Unknown CONFIG subcommand or wrong number of arguments")
