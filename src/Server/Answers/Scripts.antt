-- ===== src/Server/Answers/Scripts.antt =====
-- SCRIPT answers with one reply.
use redis_inmemory_replica.Base.{
  ℕ, inl, inr, List, [], ◌∷◌, ◌++◌, Bytes, codes, bytes_eq, Bool-cases,
}
use redis_inmemory_replica.Protocol.Reader.Lines.{IsLine}
use redis_inmemory_replica.Protocol.Command.{to_upper}
use redis_inmemory_replica.Server.{Session, ScriptEngine}
use redis_inmemory_replica.Server.Data.{arity_error}
use redis_inmemory_replica.Server.Scripts.{
  exist_items, with_lua, script_load, script_exists, script_flush, handle_script,
}
use redis_inmemory_replica.Server.Dispatch.{World}
use redis_inmemory_replica.Server.Answers.{
  Ready, Answers, reply_string-Answers, reply_array-Answers,
}
use redis_inmemory_replica.Server.Answers.Admin.{ok_reply, failed_reply}

module _ {L : Type 0} where
  -- The digest of a script is a line.
  abbrev pub DigestsAreLines : ScriptEngine L → Type 0
  DigestsAreLines scripts = (script : Bytes) (l : L) → IsLine (scripts.load_script script l).0

module _ {L : Type 0} (world : World L) (clock : ℕ → ℕ) (c : Session L) where
  script_load-Answers :
      DigestsAreLines world.scripts
      → (args : List Bytes) (d : Session L) → Ready world.hash clock c d
      → Answers world.hash clock c (script_load world.scripts world.print world.print_float args d)
  script_load-Answers lines [] d p =
      failed_reply world.hash clock c (arity_error (codes "script load")) d p
  script_load-Answers lines (script ∷ []) d p =
      reply_string-Answers world.hash clock c
        (with_lua (world.scripts.load_script script d.server.lua).1 d)
        (world.scripts.load_script script d.server.lua).0 (lines script d.server.lua)
        (record { unseen = p.unseen; unsent = p.unsent; closing = p.closing })
  script_load-Answers lines (_ ∷ _ ∷ _) d p =
      failed_reply world.hash clock c (arity_error (codes "script load")) d p

  script_exists-Answers :
      (args : List Bytes) (d : Session L)
      → Ready world.hash clock c d
      → Answers world.hash clock c
          (script_exists world.scripts world.print world.print_float args d)
  script_exists-Answers [] d p =
      failed_reply world.hash clock c (arity_error (codes "script exists")) d p
  script_exists-Answers (sha ∷ rest) d p =
      reply_array-Answers world.hash clock world.print c d
        (exist_items (world.scripts.script_exists (sha ∷ rest) d.server.lua)) p

  script_flush-Answers :
      (args : List Bytes) (d : Session L)
      → Ready world.hash clock c d
      → Answers world.hash clock c (script_flush world.scripts world.print world.print_float args d)
  script_flush-Answers [] d p =
      ok_reply world.hash clock c (with_lua (world.scripts.script_flush d.server.lua) d)
        (record { unseen = p.unseen; unsent = p.unsent; closing = p.closing })
  script_flush-Answers (_ ∷ _) d p =
      failed_reply world.hash clock c (arity_error (codes "script flush")) d p

  pub handle_script-Answers :
      DigestsAreLines world.scripts
      → (args : List Bytes) (d : Session L) → Ready world.hash clock c d
      → Answers world.hash clock c
          (handle_script world.scripts world.print world.print_float args d)
  unfolding handle_script
  handle_script-Answers lines [] d p =
      failed_reply world.hash clock c (arity_error (codes "script")) d p
  handle_script-Answers lines (sub ∷ rest) d p =
      elim (Bool-cases (bytes_eq (to_upper sub) (codes "LOAD"))) [
        | inl on ↦ rw on (script_load-Answers lines rest d p)
        | inr no_load ↦ elim (Bool-cases (bytes_eq (to_upper sub) (codes "EXISTS"))) [
          | inl on ↦ rw (no_load, on) (script_exists-Answers rest d p)
          | inr no_exists ↦ elim (Bool-cases (bytes_eq (to_upper sub) (codes "FLUSH"))) [
            | inl on ↦ rw (no_load, no_exists, on) (script_flush-Answers rest d p)
            | inr no_flush ↦
                rw (no_load, no_exists, no_flush)
                  (failed_reply world.hash clock c
                    (codes "ERR unknown SCRIPT subcommand '" ++ to_upper sub ++ codes "'") d p)
          ]
        ]
      ]
