-- ===== src/Server/Dispatch.antt =====
-- `executeCommand` and the loop `handle` of server/server.go. The world that a connection meets is a
-- record: the clock at each command and reading, the network, and the texts that fmt makes.
use redis_inmemory_replica.Base.{
  ℕ, zero, suc, ◌+◌, Bool, true, not, ◌&&◌, ◌++◌, Bytes, codes, bytes_eq, Option, none, some,
  Result, ok, err, length, if◌then◌else◌,
}
use redis_inmemory_replica.Stream.{eof}
use redis_inmemory_replica.Protocol.Types.{Value}
use redis_inmemory_replica.Protocol.Reader.{Error, io, read_next}
use redis_inmemory_replica.Protocol.Command.{
  Command, CommandError, parse_command, to_upper, upper_byte,
}
use redis_inmemory_replica.Server.{ScriptEngine, Session, Act}
use redis_inmemory_replica.Server.Items.{Item}
use redis_inmemory_replica.Server.Replies.{reply_string, reply_error}
use redis_inmemory_replica.Server.Data.{
  handle_select, handle_get, handle_mget, handle_exists, handle_ttl, handle_pttl, handle_type,
  handle_keys, handle_scan, handle_db_size,
}
use redis_inmemory_replica.Server.Admin.{
  handle_auth, handle_ping, handle_role, handle_command, handle_config, handle_read_only,
}
use redis_inmemory_replica.Server.Info.{Reports, handle_info}
use redis_inmemory_replica.Server.Scripts.{handle_eval, handle_eval_sha, handle_script}
use redis_inmemory_replica.Server.Redirect.{Dial, handle_write}

pub record World (L : Type 0) : Type 0 where
  pub hash : Bytes → ℕ
  pub matches : Bytes → Bytes → Bool
  pub scripts : ScriptEngine L
  pub dial : Dial
  pub print : Item → Bytes
  pub print_float : ℕ → Bytes
  pub reports : Reports
  pub describe : Error → Bytes
  pub describe_command : CommandError → Bytes

-- The cases of the `switch` on the name; `set` and `del` have the same handler.
pub data Name : Type 0 where
  auth ping select get mget write exists ttl pttl type keys scan dbsize info role command config
        readonly :
      Name
  eval evalsha script quit unknown : Name

unfoldable pub name_of : Bytes → Name
unfolding bytes_eq
name_of s =
    if bytes_eq s (codes "AUTH")
    then auth
    else if bytes_eq s (codes "PING")
    then ping
    else if bytes_eq s (codes "SELECT")
    then select
    else if bytes_eq s (codes "GET")
    then get
    else if bytes_eq s (codes "MGET")
    then mget
    else if bytes_eq s (codes "SET")
    then write
    else if bytes_eq s (codes "DEL")
    then write
    else if bytes_eq s (codes "EXISTS")
    then exists
    else if bytes_eq s (codes "TTL")
    then ttl
    else if bytes_eq s (codes "PTTL")
    then pttl
    else if bytes_eq s (codes "TYPE")
    then type
    else if bytes_eq s (codes "KEYS")
    then keys
    else if bytes_eq s (codes "SCAN")
    then scan
    else if bytes_eq s (codes "DBSIZE")
    then dbsize
    else if bytes_eq s (codes "INFO")
    then info
    else if bytes_eq s (codes "ROLE")
    then role
    else if bytes_eq s (codes "COMMAND")
    then command
    else if bytes_eq s (codes "CONFIG")
    then config
    else if bytes_eq s (codes "READONLY")
    then readonly
    else if bytes_eq s (codes "EVAL")
    then eval
    else if bytes_eq s (codes "EVALSHA")
    then evalsha
    else if bytes_eq s (codes "SCRIPT")
    then script
    else if bytes_eq s (codes "QUIT")
    then quit
    else unknown

module _ {L : Type 0} where
  abbrev pub counted : Session L → Session L
  counted c = record c { server = record (c.server) { command_count = c.server.command_count + 1 } }

  -- `Client.Close`
  abbrev pub close : Session L → Session L
  close c = record c { closed = true }

  abbrev pub quitting : Option (Session L) → Option (Session L)
  quitting none = none
  quitting (some c) = some (close c)

  module _ (world : World L) where
    -- The handler of each case.
    unfoldable pub run_handler : (ℕ → ℕ) → Command → Name → Act L
    unfolding reply_string reply_error handle_select handle_get handle_mget handle_exists handle_ttl
        handle_pttl handle_type handle_keys handle_scan handle_db_size handle_auth handle_ping
        handle_role handle_command handle_config handle_read_only handle_info handle_eval
        handle_eval_sha handle_script handle_write
    run_handler clock cmd auth = handle_auth cmd.args
    run_handler clock cmd ping = handle_ping cmd.args
    run_handler clock cmd select = handle_select cmd.args
    run_handler clock cmd get = handle_get world.hash clock cmd.args
    run_handler clock cmd mget = handle_mget world.hash clock world.print cmd.args
    run_handler clock cmd write = handle_write world.print world.describe world.dial cmd
    run_handler clock cmd exists = handle_exists world.hash clock cmd.args
    run_handler clock cmd ttl = handle_ttl world.hash clock cmd.args
    run_handler clock cmd pttl = handle_pttl world.hash clock cmd.args
    run_handler clock cmd type = handle_type world.hash clock cmd.args
    run_handler clock cmd keys = handle_keys world.hash clock world.print world.matches cmd.args
    run_handler clock cmd scan = handle_scan world.hash clock world.print world.matches cmd.args
    run_handler clock cmd dbsize = handle_db_size cmd.args
    run_handler clock cmd info = handle_info world.reports cmd.args
    run_handler clock cmd role = handle_role world.print cmd.args
    run_handler clock cmd command = handle_command world.print cmd.args
    run_handler clock cmd config = handle_config world.print cmd.args
    run_handler clock cmd readonly = handle_read_only cmd.args
    run_handler clock cmd eval = handle_eval world.scripts world.print world.print_float cmd.args
    run_handler clock cmd evalsha =
        handle_eval_sha world.scripts world.print world.print_float cmd.args
    run_handler clock cmd script =
        handle_script world.scripts world.print world.print_float cmd.args
    run_handler clock cmd quit = λ c. quitting (reply_string (codes "OK") c)
    run_handler clock cmd unknown =
        reply_error (codes "ERR unknown command '" ++ cmd.name ++ codes "'")

    -- `executeCommand`
    unfoldable pub execute_command : (ℕ → ℕ) → Command → Act L
    unfolding upper_byte bytes_eq name_of run_handler reply_error
    execute_command clock cmd c =
        if not c.authenticated && not (bytes_eq (to_upper cmd.name) (codes "AUTH"))
        then reply_error (codes "NOAUTH Authentication required") (counted c)
        else run_handler clock cmd (name_of (to_upper cmd.name)) (counted c)

    abbrev pub next_round : Act L → Option (Session L) → Option (Session L)
    next_round again none = none
    next_round again (some c) = if c.closed then some c else again c

    abbrev pub on_command : (ℕ → ℕ) → Act L → Result CommandError Command → Act L
    on_command clock again (err e) c =
        next_round again (reply_error (codes "Protocol error: " ++ world.describe_command e) c)
    on_command clock again (ok cmd) c = next_round again (execute_command clock cmd c)

    abbrev pub on_value : (ℕ → ℕ) → (Bytes → Act L) → Result Error Value × Bytes → Act L
    on_value clock again (ok v, rest) c = on_command clock (again rest) (parse_command v) c
    on_value clock again (err (io eof), rest) c = some (close c)
    on_value clock again (err e, rest) c =
        quitting (reply_error (codes "Protocol error: " ++ world.describe e) c)

    -- The loop of `handle` on all the bytes that the client sends; every round takes a byte at least.
    unfoldable pub handle_from : ℕ → (ℕ → ℕ → ℕ) → Bytes → Act L
    unfolding read_next parse_command execute_command reply_error
    handle_from zero clock input c = none
    handle_from (suc f) clock input c = on_value (clock f) (handle_from f clock) (read_next input) c

    -- `handle`
    unfoldable pub handle : (ℕ → ℕ → ℕ) → Bytes → Act L
    unfolding handle_from
    handle clock input = handle_from (suc (length input)) clock input
