-- ===== src/Server/Scripts.antt =====
-- `handleEval`, `handleEvalSHA` and `handleScript` of server/server.go, over the Lua engine.
use redis_inmemory_replica.Base.{
  ℕ, Bool, true, false, List, [], ◌∷◌, ◌++◌, Bytes, codes, bytes_eq, Option, none, some, ℤ, pos,
  negsuc, Result, ok, err, length, take, drop, ltb, leb, ◌-◌, ◌^◌, if◌then◌else◌,
}
use redis_inmemory_replica.Protocol.Command.{to_upper, upper_byte}
use redis_inmemory_replica.Replication.Apply.{atoi}
use redis_inmemory_replica.Storage.Memory.{M}
use redis_inmemory_replica.Server.{ScriptEngine, Session, Act, call}
use redis_inmemory_replica.Server.Items.{Item, Items}
use redis_inmemory_replica.Server.Replies.{reply_string, reply_error, reply_array, write_result}
use redis_inmemory_replica.Server.Data.{arity_error}

abbrev pub exist_items : List Bool → Items
exist_items [] = Items.none
exist_items (true ∷ found) = Items.more (Item.int (pos 1)) (exist_items found)
exist_items (false ∷ found) = Items.more (Item.int (pos 0)) (exist_items found)

module _ {L : Type 0} where
  abbrev pub with_lua : L → Session L → Session L
  with_lua l c = record c { server = record (c.server) { lua = l } }

  module _ (scripts : ScriptEngine L) (print : Item → Bytes) (print_float : ℕ → Bytes) where
    abbrev pub script_reply : Result Bytes Item × L → Act L
    script_reply (err text, l) c = reply_error (codes "ERR " ++ text) (with_lua l c)
    script_reply (ok result, l) c = write_result print print_float result (with_lua l c)

    -- A run of a script with the first `n` arguments as its keys. The sum `2 + numKeys` wraps around for
    -- the last two numbers, and the test lets them through to a slice that cannot be made.
    abbrev pub run_script :
        (List Bytes → List Bytes → L → M (Result Bytes Item × L)) → List Bytes → Option ℤ → Act L
    run_script run rest none c = reply_error (codes "ERR value is not an integer or out of range") c
    run_script run rest (some (negsuc n)) c =
        reply_error (codes "ERR Number of keys can't be negative or greater than args") c
    run_script run rest (some (pos n)) c =
        if leb (2 ^ 63 - 2) n
        then none
        else if ltb (length rest) n
        then reply_error (codes "ERR Number of keys can't be negative or greater than args") c
        else call (run (take n rest) (drop n rest) c.server.lua) script_reply c

    -- `handleEval`
    unfoldable pub handle_eval : List Bytes → Act L
    unfolding atoi write_result reply_error
    handle_eval (script ∷ num_keys ∷ rest) = run_script (scripts.eval script) rest (atoi num_keys)
    handle_eval _ = reply_error (arity_error (codes "eval"))

    -- `handleEvalSHA`
    unfoldable pub handle_eval_sha : List Bytes → Act L
    unfolding atoi write_result reply_error
    handle_eval_sha (sha ∷ num_keys ∷ rest) = run_script (scripts.eval_sha sha) rest (atoi num_keys)
    handle_eval_sha _ = reply_error (arity_error (codes "evalsha"))

    abbrev pub loaded : Bytes × L → Act L
    loaded (sha, l) c = reply_string sha (with_lua l c)

    abbrev pub script_load : List Bytes → Act L
    script_load (script ∷ []) c = loaded (scripts.load_script script c.server.lua) c
    script_load _ c = reply_error (arity_error (codes "script load")) c

    abbrev pub script_exists : List Bytes → Act L
    script_exists [] c = reply_error (arity_error (codes "script exists")) c
    script_exists (sha ∷ rest) c =
        reply_array print (exist_items (scripts.script_exists (sha ∷ rest) c.server.lua)) c

    abbrev pub script_flush : List Bytes → Act L
    script_flush [] c = reply_string (codes "OK") (with_lua (scripts.script_flush c.server.lua) c)
    script_flush _ c = reply_error (arity_error (codes "script flush")) c

    -- `handleScript`
    unfoldable pub handle_script : List Bytes → Act L
    unfolding upper_byte bytes_eq reply_string reply_array reply_error
    handle_script [] = reply_error (arity_error (codes "script"))
    handle_script (sub ∷ rest) =
        if bytes_eq (to_upper sub) (codes "LOAD")
        then script_load rest
        else if bytes_eq (to_upper sub) (codes "EXISTS")
        then script_exists rest
        else if bytes_eq (to_upper sub) (codes "FLUSH")
        then script_flush rest
        else reply_error (codes "ERR unknown SCRIPT subcommand '" ++ to_upper sub ++ codes "'")
