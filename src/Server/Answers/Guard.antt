-- ===== src/Server/Answers/Guard.antt =====
-- A client that has not given the password.
use mathlib.Core.List.{append_assoc, append-nil}
use redis_inmemory_replica.Base.{
  ℕ, zero, suc, ◌≤◌, ◌<◌, ◌≡◌, refl, sym, ap, ◌∙◌, true, false, not, ◌&&◌, List, [], ◌∷◌, ◌++◌,
  Bytes, codes, bytes_eq, some, length, All, arith, if◌then◌else◌,
}
use redis_inmemory_replica.Protocol.Reader.{max_array_size}
use redis_inmemory_replica.Protocol.Writer.{write_error}
use redis_inmemory_replica.Protocol.Command.{Command, to_upper}
use redis_inmemory_replica.Protocol.Command.RoundTrip.{Sendable}
use redis_inmemory_replica.Server.{Session}
use redis_inmemory_replica.Server.Replies.{reply_error}
use redis_inmemory_replica.Server.Dispatch.{
  World, execute_command, run_handler, name_of, counted, close, handle_from, handle,
}
use redis_inmemory_replica.Server.Answers.Pipeline.{
  requests, received, on_command-next, handle_from-end, length-requests,
}

-- A command within the limits of the protocol that is not AUTH.
pub record IsIntruder (cmd : Command) : Type 0 where
  pub sendable : Sendable (cmd.name ∷ cmd.args)
  pub bounded : length (cmd.name ∷ cmd.args) ≤ max_array_size
  pub not_auth : bytes_eq (to_upper (to_upper cmd.name)) (codes "AUTH") ≡ false

abbrev pub refusal : Bytes
refusal = write_error (codes "NOAUTH Authentication required")

abbrev pub refusals : List Command → Bytes
refusals [] = []
refusals (cmd ∷ cmds) = refusal ++ refusals cmds

module _ {L : Type 0} where
  -- Only the counters of the server have changed, and these are the replies.
  pub record Refused (replies : Bytes) (c d : Session L) : Type 0 where
    pub storage : d.server.storage ≡ c.server.storage
    pub lua : d.server.lua ≡ c.server.lua
    pub authenticated : d.authenticated ≡ false
    pub db : d.db ≡ c.db
    pub sent : d.sent ≡ c.sent ++ replies

  module _ (world : World L) (clock : ℕ → ℕ → ℕ) where
    execute_command-Refused :
        (k : ℕ) (cmd : Command) (c : Session L)
        → IsIntruder cmd
        → c.authenticated ≡ false
        → (d : Session L) × (execute_command world (clock k) (received cmd) c ≡ some d)
          × Refused refusal c d
          × (d.closed ≡ c.closed)
    unfolding execute_command reply_error
    execute_command-Refused k cmd c q a =
        let refuse : (not c.authenticated
              && not (bytes_eq (to_upper (to_upper cmd.name)) (codes "AUTH")))
            ≡ true =
          ap (λ b. not b && not (bytes_eq (to_upper (to_upper cmd.name)) (codes "AUTH"))) a
          ∙ ap not q.not_auth in
        (
          _,
          ap
              (λ b.
                if b
                then reply_error (codes "NOAUTH Authentication required") (counted c)
                else run_handler world (clock k) (received cmd)
                    (name_of (to_upper (to_upper cmd.name))) (counted c))
              refuse,
          record { storage = refl; lua = refl; authenticated = a; db = refl; sent = refl },
          refl,
        )

    handle_from-Refused :
        (cmds : List Command) (f : ℕ) (c : Session L)
        → length cmds < f
        → All IsIntruder cmds
        → c.authenticated ≡ false
        → c.closed ≡ false
        → (d : Session L) × (handle_from world f clock (requests cmds) c ≡ some d)
          × Refused (refusals cmds) c d
    handle_from-Refused cmds zero c h q a o = absurd (omega arith)
    handle_from-Refused [] (suc f) c h q a o = (
      close c,
      handle_from-end world clock f c,
      record {
        storage = refl;
        lua = refl;
        authenticated = a;
        db = refl;
        sent = sym (append-nil c.sent);
      },
    )
    handle_from-Refused (cmd ∷ cmds) (suc f) c h q a o =
        let (d, run, one, same) = execute_command-Refused f cmd c q.0 a in
        let (e, rest, all) =
          handle_from-Refused cmds f d (omega arith) q.1 one.authenticated (same ∙ o) in
        (
          e,
          on_command-next world clock f cmd (requests cmds) c d q.0.sendable q.0.bounded run
                (same ∙ o)
              ∙ rest,
          record {
            storage = all.storage ∙ one.storage;
            lua = all.lua ∙ one.lua;
            authenticated = all.authenticated;
            db = all.db ∙ one.db;
            sent =
                all.sent
                ∙ ap (λ u. u ++ refusals cmds) one.sent
                ∙ append_assoc c.sent refusal (refusals cmds);
          },
        )

-- A client that is not authenticated and sends any commands but AUTH, writes and scripts included, gets
-- the NOAUTH error for each of them and nothing else; the engine, the scripts and the selected database
-- are as before, and it is still not authenticated. The commands are within the limits of the protocol.
pub handle-Refused :
    {L : Type 0} (world : World L) (clock : ℕ → ℕ → ℕ) (cmds : List Command) (c : Session L)
    → All IsIntruder cmds
    → c.authenticated ≡ false
    → c.closed ≡ false
    → (d : Session L) × (handle world clock (requests cmds) c ≡ some d)
      × Refused (refusals cmds) c d
unfolding handle
handle-Refused world clock cmds c q a o =
    handle_from-Refused world clock cmds (suc (length (requests cmds))) c
      (omega (arith, length-requests cmds)) q a o
