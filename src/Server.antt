-- ===== src/Server.antt =====
-- The server of server/server.go: one connection with its client, over the engine. What the handlers
-- write is appended to `sent`, since every write is flushed; errors of the connection to the client are
-- not modelled. `none` is a panic.
pub mod Items
pub mod Replies
pub mod Data
pub mod Admin
pub mod Info
pub mod Scripts
pub mod Redirect
pub mod Dispatch
pub mod Answers
use redis_inmemory_replica.Base.{
  ℕ, Bool, false, List, [], Bytes, bytes_eq, Option, none, some, Result, ℤ, pos,
}
use redis_inmemory_replica.Storage.Memory.{Memory, M}
use redis_inmemory_replica.Server.Items.{Item}

-- The fields of `SyncStatus` of replication/sync.go that the server reads, as they are while a command
-- is handled; of the time of the last synchronisation the whole seconds since then.
pub record SyncStatus : Type 0 where
  pub initial_sync_completed : Bool
  pub master_host : Bytes
  pub replication_offset : ℤ
  pub connected : Bool
  pub last_sync_seconds : ℤ

-- The methods of the Lua engine that the server calls. A script may use the engine of the data; the
-- error of a run is its text.
pub record ScriptEngine (L : Type 0) : Type 0 where
  pub eval : Bytes → List Bytes → List Bytes → L → M (Result Bytes Item × L)
  pub eval_sha : Bytes → List Bytes → List Bytes → L → M (Result Bytes Item × L)
  pub load_script : Bytes → L → Bytes × L
  pub script_exists : List Bytes → L → List Bool
  pub script_flush : L → L

-- `Server`, without its listener and the control of its goroutines.
pub record Server (L : Type 0) : Type 0 where
  pub storage : Memory
  pub lua : L
  pub sync : Option SyncStatus
  pub password : Bytes
  pub redirect_writes : Bool
  pub master_addr : Bytes
  pub master_password : Bytes
  pub command_count : ℕ
  pub error_count : ℕ

-- `Client`, with its server and the bytes it was sent.
pub record Session (L : Type 0) : Type 0 where
  pub server : Server L
  pub authenticated : Bool
  pub db : ℤ
  pub closed : Bool
  pub sent : Bytes

module _ {L : Type 0} where
  -- `NewServer`, with the Lua engine that it makes.
  abbrev pub new_server : Memory → L → Server L
  new_server s l = record {
    storage = s;
    lua = l;
    sync = none;
    password = [];
    redirect_writes = false;
    master_addr = [];
    master_password = [];
    command_count = 0;
    error_count = 0;
  }

  -- `SetPassword`
  abbrev pub set_password : Bytes → Server L → Server L
  set_password password s = record s { password = password }

  -- `SetSyncManager`, as far as the server asks it for its status.
  abbrev pub set_sync_manager : SyncStatus → Server L → Server L
  set_sync_manager status s = record s { sync = some status }

  -- `SetWriteRedirection`
  abbrev pub set_write_redirection : Bool → Bytes → Bytes → Server L → Server L
  set_write_redirection enabled address password s = record s {
    redirect_writes = enabled;
    master_addr = address;
    master_password = password;
  }

  -- The client that `handleNewClient` makes: it is authenticated where there is no password.
  unfoldable pub new_client : Server L → Session L
  unfolding bytes_eq
  new_client s = record {
    server = s;
    authenticated = bytes_eq s.password [];
    db = pos 0;
    closed = false;
    sent = [];
  }

abbrev pub Act : Type 0 → Type 0
Act L = Session L → Option (Session L)

module _ {L : Type 0} where
  abbrev pub with_storage : Session L → Memory → Session L
  with_storage c s = record c { server = record (c.server) { storage = s } }

module _ {L A : Type 0} where
  abbrev pub after_call : Session L → (A → Act L) → Option (A × Memory) → Option (Session L)
  after_call c next none = none
  after_call c next (some (a, s)) = next a (with_storage c s)

  -- A call of the engine.
  abbrev pub call : M A → (A → Act L) → Act L
  call m next c = after_call c next (m c.server.storage)
