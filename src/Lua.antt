-- ===== src/Lua.antt =====
-- The engine of lua/engine.go: its cache of scripts, and the commands that scripts call. The interpreter
-- is a parameter, with the conversions between its values and those of Go: a script is the commands it
-- calls, each with what it does on the answer, and ends in a value or an error, as its text, keys and
-- arguments have it: globals that an earlier script left in a pooled state are not modelled. The digest is a
-- parameter too. A script that does not end is not modelled.
pub mod Recent
pub mod Cache
use redis_inmemory_replica.Base.{
  ℕ, ◌+◌, Bool, true, false, List, [], ◌∷◌, ◌++◌, Bytes, codes, bytes_eq, map, Option, none, some,
  ℤ, pos, negsuc, Result, ok, err, length, ltb, if◌then◌else◌,
}
use redis_inmemory_replica.Storage.Map.{Map, lookup, insert, delete, bytes_key}
use redis_inmemory_replica.Storage.Value.{type_name, after_readings}
use redis_inmemory_replica.Storage.Memory.{Shard, Memory, M, pure, ◌>>=◌, ◌>>◌, continue}
use redis_inmemory_replica.Storage.Memory.Access.{get, set_key, key_type}
use redis_inmemory_replica.Storage.Memory.Batch.{del, exists}
use redis_inmemory_replica.Server.{ScriptEngine}
use redis_inmemory_replica.Server.Items.{Item}

pub data Script : Type 0 where
  returns : Item → Script
  fails : Bytes → Script
  calls : List Bytes → (Result Bytes Item → Script) → Script

abbrev pub Interpreter : Type 0
Interpreter = Bytes → List Bytes → List Bytes → Script

-- `Engine`: the scripts by their digests, and the digests, the one used last in front.
pub record Engine : Type 0 where
  pub scripts : Map Bytes Bytes
  pub lru_list : List Bytes
  pub max_scripts : ℤ
  pub cache_hits : ℕ
  pub cache_misses : ℕ

-- `NewEngine` with `WithMaxScripts(max)`.
abbrev pub new_engine : ℤ → Engine
new_engine max = record {
  scripts = [];
  lru_list = [];
  max_scripts = max;
  cache_hits = 0;
  cache_misses = 0;
}

abbrev pub default_max_scripts : ℤ
default_max_scripts = pos 1000

-- `lruList.Remove`
unfoldable pub remove : Bytes → List Bytes → List Bytes
unfolding bytes_eq
remove sha [] = []
remove sha (s ∷ shas) = let rest = remove sha shas in if bytes_eq sha s then rest else s ∷ rest

-- `lruList.MoveToFront`
abbrev pub move_to_front : Bytes → List Bytes → List Bytes
move_to_front sha shas = sha ∷ remove sha shas

-- `lruList.Back`
abbrev pub back : List Bytes → Option Bytes
back [] = none
back (s ∷ []) = some s
back (s ∷ t ∷ shas) = back (t ∷ shas)

abbrev pub exceeds : ℕ → ℤ → Bool
exceeds n (pos max) = ltb max n
exceeds n (negsuc max) = true

abbrev pub drop_script : Engine → Option Bytes → Engine
drop_script e none = e
drop_script e (some sha) = record e {
  scripts = delete sha e.scripts;
  lru_list = remove sha e.lru_list;
}

-- The end of `LoadScript`.
unfoldable pub evict : Engine → Engine
unfolding delete remove
evict e = if exceeds (length e.lru_list) e.max_scripts then drop_script e (back e.lru_list) else e

abbrev pub used : Bytes → Engine → Engine
used sha e = record e { lru_list = move_to_front sha e.lru_list }

abbrev pub added : Bytes → Bytes → Engine → Engine
added sha script e = record e { scripts = insert sha script e.scripts; lru_list = sha ∷ e.lru_list }

abbrev pub load_found : Bytes → Bytes → Engine → Option Bytes → Engine
load_found sha script e (some found) = used sha e
load_found sha script e none = evict (added sha script e)

abbrev pub is_some : Option Bytes → Bool
is_some none = false
is_some (some script) = true

-- `ScriptExists`
unfoldable pub script_exists : List Bytes → Engine → List Bool
unfolding lookup
script_exists shas e = map (λ sha. is_some (lookup sha e.scripts)) shas

-- `ScriptFlush`
unfoldable pub script_flush : Engine → Engine
script_flush e = record e { scripts = []; lru_list = []; cache_hits = 0; cache_misses = 0 }

module _ (digest : Bytes → Bytes) where
  -- `LoadScript`
  unfoldable pub load_script : Bytes → Engine → Bytes × Engine
  unfolding lookup insert remove evict
  load_script script e =
      (digest script, load_found (digest script) script e (lookup (digest script) e.scripts))

abbrev pub with_engine :
    Engine → Option (Result Bytes Item × Memory) → Option ((Result Bytes Item × Engine) × Memory)
with_engine e none = none
with_engine e (some (r, s)) = some ((r, e), s)

abbrev pub text_or_null : Option Bytes → Item
text_or_null none = Item.null
text_or_null (some bytes) = Item.text bytes

module _ {A : Type 0} where
  abbrev pub answered : (A → Item) → A → M (Result Bytes Item)
  answered f a = pure (ok (f a))

abbrev pub refused : Bytes → M (Result Bytes Item)
refused text = pure (err text)

abbrev pub arity : Bytes → Bytes
arity name = codes "wrong number of arguments for '" ++ name ++ codes "' command"

-- The cases of `executeCommand`.
module _ (hash : Bytes → ℕ) (choose : Shard → ℕ) (clock : ℕ → ℕ) (i : ℕ) where
  abbrev pub call_get : List Bytes → M (Result Bytes Item)
  call_get (key ∷ []) = do
    value ← get hash (clock i) (clock (i + 1)) key
    answered text_or_null value
  call_get _ = refused (arity (codes "get"))

  abbrev pub call_set : List Bytes → M (Result Bytes Item)
  call_set (key ∷ bytes ∷ rest) = do
    set_key hash choose (clock i) key bytes none
    answered Item.text (codes "OK")
  call_set _ = refused (arity (codes "set"))

  abbrev pub call_del : List Bytes → M (Result Bytes Item)
  call_del [] = refused (arity (codes "del"))
  call_del (key ∷ rest) = do
    deleted ← del hash (key ∷ rest)
    answered (λ n. Item.int (pos n)) deleted

  abbrev pub call_exists : List Bytes → M (Result Bytes Item)
  call_exists [] = refused (arity (codes "exists"))
  call_exists (key ∷ rest) = do
    count ← exists hash (after_readings i clock) (key ∷ rest)
    answered (λ n. Item.int (pos n)) count

  abbrev pub call_type : List Bytes → M (Result Bytes Item)
  call_type (key ∷ []) = do
    kind ← key_type hash (clock i) key
    answered (λ t. Item.text (type_name t)) kind
  call_type _ = refused (arity (codes "type"))

  -- `executeCommand`
  unfoldable pub execute_command : Bytes → List Bytes → M (Result Bytes Item)
  unfolding bytes_eq get set_key del exists key_type type_name
  execute_command name args =
      if bytes_eq name (codes "GET")
      then call_get args
      else if bytes_eq name (codes "SET")
      then call_set args
      else if bytes_eq name (codes "DEL")
      then call_del args
      else if bytes_eq name (codes "EXISTS")
      then call_exists args
      else if bytes_eq name (codes "TYPE")
      then call_type args
      else refused (codes "unknown or unsupported command: " ++ name)

  -- `executeRedisCommand`, on the arguments of the call.
  unfoldable pub execute_redis_command : List Bytes → M (Result Bytes Item)
  unfolding bytes_eq execute_command
  execute_redis_command [] = refused (codes "wrong number of arguments for redis command")
  execute_redis_command (name ∷ args) =
      if bytes_eq name []
      then refused (codes "command name must be a string")
      else execute_command name args

module _ (hash : Bytes → ℕ) (choose : Shard → ℕ) (clock : ℕ → ℕ) where
  -- `DoString`, from reading `i` of the clock; a command reads it at most once for each argument, or
  -- twice.
  unfoldable pub run : ℕ → Script → M (Result Bytes Item)
  unfolding execute_redis_command
  run i (returns item) = pure (ok item)
  run i (fails text) = pure (err (codes "script execution error: " ++ text))
  run i (calls args next) = do
    answer ← execute_redis_command hash choose clock i args
    run (i + (length args + 2)) (next answer)

  module _ (interpret : Interpreter) where
    -- `Eval`
    unfoldable pub eval : Bytes → List Bytes → List Bytes → M (Result Bytes Item)
    unfolding run
    eval script keys args = run 0 (interpret script keys args)

    abbrev pub eval_found :
        Bytes → List Bytes → List Bytes → Engine → Option Bytes → M (Result Bytes Item × Engine)
    eval_found sha keys args e none s = some (
      (
        err (codes "NOSCRIPT No matching script. Please use EVAL"),
        record e { cache_misses = e.cache_misses + 1 },
      ),
      s,
    )
    eval_found sha keys args e (some script) s =
        with_engine (used sha (record e { cache_hits = e.cache_hits + 1 }))
          (eval script keys args s)

    -- `EvalSHA`
    unfoldable pub eval_sha :
        Bytes → List Bytes → List Bytes → Engine → M (Result Bytes Item × Engine)
    unfolding lookup remove eval
    eval_sha sha keys args e = eval_found sha keys args e (lookup sha e.scripts)

    module _ (digest : Bytes → Bytes) where
      -- The engine as the server uses it.
      abbrev pub lua_engine : ScriptEngine Engine
      lua_engine = record {
        eval = λ script keys args e s. with_engine e (eval script keys args s);
        eval_sha = eval_sha;
        load_script = load_script digest;
        script_exists = script_exists;
        script_flush = script_flush;
      }
