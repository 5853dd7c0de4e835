-- ===== src/Examples/Server.antt =====
-- The theorems of the server at concrete inputs: a server with a password and no scripts.
use redis_inmemory_replica.Base.{
  ℕ, ◌+◌, ◌≤◌, ◌≡◌, refl, Bool, true, false, List, [], ◌∷◌, ◌++◌, Bytes, codes, Option, none, some,
  ok, err, ℤ, pos, All, arith, length,
}
use redis_inmemory_replica.Protocol.Command.{Command, upper_byte}
use redis_inmemory_replica.Storage.Memory.New.{new_memory}
use redis_inmemory_replica.Storage.Memory.New.WellFormed.{new_memory-IsWellFormed}
use redis_inmemory_replica.Storage.Memory.WellFormed.{view}
use redis_inmemory_replica.Storage.Memory.Methods.{live, reply}
use redis_inmemory_replica.Server.{ScriptEngine, Server, Session, new_server, set_password}
use redis_inmemory_replica.Server.Dispatch.{World, execute_command, handle}
use redis_inmemory_replica.Server.Answers.Pipeline.{requests}
use redis_inmemory_replica.Server.Answers.Guard.{IsIntruder, refusals, Refused, handle-Refused}
use redis_inmemory_replica.Server.Answers.Reads.{get_command, bulk_reply, execute_command-get}

abbrev length_hash : Bytes → ℕ
length_hash = length

abbrev no_scripts : ScriptEngine (Unit {0})
no_scripts = record {
  eval = λ script keys args l s. some ((err (codes "disabled"), l), s);
  eval_sha = λ sha keys args l s. some ((err (codes "disabled"), l), s);
  load_script = λ script l. (codes "da39", l);
  script_exists = λ shas l. [];
  script_flush = λ l. l;
}

abbrev quiet_world : World (Unit {0})
quiet_world = record {
  hash = length_hash;
  matches = λ key pattern. true;
  scripts = no_scripts;
  dial = λ address. err (codes "refused");
  print = λ item. [];
  print_float = λ w. codes "0";
  reports = record { memory = λ s. codes "# Memory"; keyspace = λ s. [] };
  describe = λ e. codes "error";
  describe_command = λ e. codes "error";
}

abbrev guarded_server : Server (Unit {0})
guarded_server = set_password (codes "secret") (new_server (new_memory []) tt)

abbrev session : Bool → Session (Unit {0})
session known = record {
  server = guarded_server;
  authenticated = known;
  db = pos 0;
  closed = false;
  sent = [];
}

abbrev ticks : ℕ → ℕ
ticks i = 100 + i

abbrev set_request : Command
set_request = record { name = codes "SET"; args = codes "k" ∷ codes "v" ∷ [] }

abbrev scan_request : Command
scan_request = record { name = codes "scan"; args = codes "0" ∷ codes "COUNT" ∷ codes "5" ∷ [] }

set_request-IsIntruder : IsIntruder set_request
set_request-IsIntruder = record {
  sendable = (omega arith, (omega arith, (omega arith, tt)));
  bounded = omega arith;
  not_auth = unfold redis_inmemory_replica.Base.bytes_eq upper_byte in refl;
}

handle-Refused_example :
    (d : Session (Unit {0})) × (handle quiet_world
        (λ k. ticks)
        (requests (set_request ∷ set_request ∷ []))
        (session false)
      ≡ some d)
    × Refused (refusals (set_request ∷ set_request ∷ [])) (session false) d
handle-Refused_example =
    handle-Refused quiet_world (λ k. ticks) (set_request ∷ set_request ∷ []) (session false)
      (set_request-IsIntruder, (set_request-IsIntruder, tt)) refl refl

execute_command-get_example :
    (d : Session (Unit {0})) × (execute_command quiet_world ticks
        (get_command (codes "k"))
        (session true)
      ≡ some d)
    × (d.sent
        ≡ []
          ++ bulk_reply (
              reply (
                live 100
                  (view length_hash (new_memory []) (new_memory []).current_db (codes "k")))))
execute_command-get_example =
    execute_command-get quiet_world ticks (codes "k") (session true)
      (new_memory-IsWellFormed length_hash []) (omega arith) refl refl
