-- ===== src/Server/Answers/Commands.antt =====
-- Every command but the runs of scripts is answered with one reply and changes no key.
use redis_inmemory_replica.Base.{Bool, true, false, not, ◌&&◌, codes, bytes_eq, if◌then◌else◌}
use redis_inmemory_replica.Protocol.Command.{Command, to_upper}
use redis_inmemory_replica.Server.{Session}
use redis_inmemory_replica.Server.Dispatch.{Name, name_of}

-- The name is not that of a run of a script.
abbrev pub RunsNoScript : Name → Type 0
RunsNoScript Name.eval = ⊥
RunsNoScript Name.evalsha = ⊥
RunsNoScript name = Unit

abbrev pub quits : Name → Bool
quits Name.quit = true
quits name = false

module _ {L : Type 0} where
  -- The command closes the connection: QUIT, once the client may send it.
  abbrev pub closes : Session L → Command → Bool
  closes c cmd =
      if not c.authenticated && not (bytes_eq (to_upper cmd.name) (codes "AUTH"))
      then false
      else quits (name_of (to_upper cmd.name))
