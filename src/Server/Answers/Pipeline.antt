-- ===== src/Server/Answers/Pipeline.antt =====
-- A connection on which a client sends commands one behind the other.
use redis_inmemory_replica.Base.{
  ℕ, suc, ◌≤◌, ◌≡◌, refl, ap, ◌∙◌, false, List, [], ◌∷◌, ◌++◌, Bytes, some, length, length-append,
  All, arith, if◌then◌else◌,
}
use redis_inmemory_replica.Protocol.Reader.{Error, read_next, max_array_size}
use redis_inmemory_replica.Protocol.Writer.{write_command}
use redis_inmemory_replica.Protocol.Command.{Command, IsAscii, to_upper}
use redis_inmemory_replica.Protocol.Command.RoundTrip.{Sendable, parse_command-written}
use redis_inmemory_replica.Protocol.Resp.{Resp}
use redis_inmemory_replica.Protocol.Resp.RoundTrip.{wire}
use redis_inmemory_replica.Storage.Memory.WellFormed.{IsWellFormed, view}
use redis_inmemory_replica.Storage.Memory.Methods.{live}
use redis_inmemory_replica.Server.{Session}
use redis_inmemory_replica.Server.Dispatch.{
  World, name_of, close, next_round, on_command, on_value, execute_command, handle_from,
}
use redis_inmemory_replica.Server.Answers.{IsSafe, Served}
use redis_inmemory_replica.Server.Answers.Scan.{SmallNumbers}
use redis_inmemory_replica.Server.Answers.Commands.{RunsNoScript, quits}

-- A command as the server parses it.
abbrev pub received : Command → Command
received cmd = record { name = to_upper cmd.name; args = cmd.args }

-- It can be sent, has ASCII text for a name, neither runs a script nor ends the connection, and has no number that is too large.
pub record IsRequest (cmd : Command) : Type 0 where
  pub sendable : Sendable (cmd.name ∷ cmd.args)
  pub ascii : IsAscii cmd.name
  pub counted : length (cmd.name ∷ cmd.args) ≤ max_array_size
  pub no_script : RunsNoScript (name_of (to_upper (to_upper cmd.name)))
  pub stays : quits (name_of (to_upper (to_upper cmd.name))) ≡ false
  pub small : SmallNumbers cmd.args

-- What the client sends.
abbrev pub requests : List Command → Bytes
requests [] = []
requests (cmd ∷ cmds) = write_command cmd.name cmd.args ++ requests cmds

abbrev pub wires : List Resp → Bytes
wires [] = []
wires (r ∷ rs) = wire r ++ wires rs

module _ {L : Type 0} (world : World L) (clock : ℕ → ℕ → ℕ) where
  -- The commands are handled one after the other, from round `f` down: each is executed where the one
  -- before it ended, and sends its one reply behind those of the others; then the connection is closed.
  pub data InTurn : ℕ → List Command → Session L → Session L → Type 0 where
    over : {f : ℕ} {c : Session L} → InTurn f [] c (close c)
    turn :
        {f : ℕ} {cmd : Command} {cmds : List Command} {c d e : Session L}
        → execute_command world (clock f) (received cmd) c ≡ some d
        → Served world.hash (clock f) false c d
        → InTurn f cmds d e
        → InTurn (suc f) (cmd ∷ cmds) c e

  -- One reply for each of the commands and nothing else that a client can see.
  pub record Pipelined (cmds : List Command) (c d : Session L) : Type 0 where
    pub well_formed : IsWellFormed world.hash d.server.storage
    pub lives :
        (n : ℕ) (j : Bytes) (t : ℕ)
        → ((k i : ℕ) → clock k i ≤ t)
        → live t (view world.hash d.server.storage n j)
          ≡ live t (view world.hash c.server.storage n j)
    pub replies :
        (rs : List Resp) × (length rs ≡ length cmds) × (d.sent ≡ c.sent ++ wires rs) × All IsSafe rs

  pub handle_from-end :
      (f : ℕ) (c : Session L) → handle_from world (suc f) clock [] c ≡ some (close c)
  unfolding handle_from read_next redis_inmemory_replica.Protocol.Reader.read_value
      redis_inmemory_replica.Stream.read_byte
  handle_from-end f c = refl

  pub on_command-next :
      (f : ℕ) (cmd : Command) (rest : Bytes) (c d : Session L)
      → Sendable (cmd.name ∷ cmd.args)
      → length (cmd.name ∷ cmd.args) ≤ max_array_size
      → execute_command world (clock f) (received cmd) c ≡ some d
      → d.closed ≡ false
      → handle_from world (suc f) clock (write_command cmd.name cmd.args ++ rest) c
        ≡ handle_from world f clock rest d
  unfolding handle_from
  on_command-next f cmd rest c d sends counts run stays =
      let (v, reads, parses) = parse_command-written cmd.name cmd.args rest sends counts in
      ap (λ r. on_value world (clock f) (handle_from world f clock) r c) reads
      ∙ ap (λ r. on_command world (clock f) (handle_from world f clock rest) r c) parses
      ∙ ap (next_round world (handle_from world f clock rest)) run
      ∙ ap (λ b. if b then some d else handle_from world f clock rest d) stays

pub length-requests : (cmds : List Command) → length cmds ≤ length (requests cmds)
unfolding write_command
length-requests [] = omega arith
length-requests (cmd ∷ cmds) =
    omega
      (arith, length-requests cmds, length-append (write_command cmd.name cmd.args) (requests cmds))
