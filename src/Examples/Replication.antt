-- ===== src/Examples/Replication.antt =====
-- The theorems of the replication client at concrete inputs.
use redis_inmemory_replica.Base.{
  Option, some, ℕ, ◌+◌, ◌≡◌, refl, List, [], ◌∷◌, Bytes, codes, none, pos, ok, arith,
}
use redis_inmemory_replica.Protocol.Types.{Value}
use redis_inmemory_replica.Protocol.Resp.{Resp, Resps, to_value}
use redis_inmemory_replica.Replication.Lzf.{copy_back, lzf_decompress}
use redis_inmemory_replica.Replication.Lzf.Window.{IsCopy, copy_back-IsCopy}
use redis_inmemory_replica.Replication.Lzf.Bounds.{Sized, lzf_decompress-Sized}
use redis_inmemory_replica.Replication.Lzf.Encode.{Token, encode, Expands, lzf_decompress-encode}
use redis_inmemory_replica.Storage.Memory.{Shard}
use redis_inmemory_replica.Storage.Memory.Methods.{reply}
use redis_inmemory_replica.Storage.Memory.WellFormed.{view}
use redis_inmemory_replica.Storage.Memory.New.{new_memory}
use redis_inmemory_replica.Replication.Apply.{Client, process_stream, member_int}
use redis_inmemory_replica.Replication.Apply.Isolation.{Keeps, process_stream-Keeps}
use redis_inmemory_replica.Replication.Handler.{RdbEvent, RdbValue, load, new_handler}
use redis_inmemory_replica.Replication.Handler.Batching.{storage_after, direct, load-IsDirect}

-- Two bytes back from the end of "ab", five bytes: the match overlaps what it writes.
copy_back-IsCopy_example :
    (r : Bytes) × (copy_back 5 0 (codes "ab") ≡ ok r) × IsCopy 5 0 (codes "ab") r
copy_back-IsCopy_example = copy_back-IsCopy 5 0 (codes "ab") (omega arith)

lzf_decompress-Sized_example : Sized 3 (lzf_decompress (2 ∷ codes "abc") 3)
lzf_decompress-Sized_example = lzf_decompress-Sized 2 (codes "abc") 3

abbrev tokens : List Token
tokens = Token.literal (codes "ab") ∷ []

tokens-Expands : Expands [] tokens (codes "ab")
tokens-Expands = Expands.literal (omega arith, omega arith) Expands.done

lzf_decompress-encode_example : lzf_decompress (encode tokens) 2 ≡ ok (codes "ab")
lzf_decompress-encode_example =
    lzf_decompress-encode (Token.literal (codes "ab")) [] (codes "ab") tokens-Expands

-- A hash for the examples, and the eviction of the first entry.
abbrev sum : Bytes → ℕ
sum [] = 0
sum (c ∷ key) = c + sum key

abbrev first : Shard → ℕ
first sh = 0

abbrev words : List Bytes → Resps
words [] = Resps.none
words (w ∷ ws) = Resps.more (Resp.bulk w) (words ws)

abbrev command : List Bytes → Value
command ws = to_value (Resp.items (words ws))

abbrev replica : Client
replica = record {
  storage = new_memory (pos 4 ∷ []);
  command_filters = [];
  databases = pos 0 ∷ [];
  commands_processed = 0;
  replication_offset = 0;
}

abbrev commands : List (ℕ × Value)
commands =
    (1, command (codes "SELECT" ∷ codes "3" ∷ []))
    ∷ (2, command (codes "SET" ∷ codes "k" ∷ codes "v" ∷ []))
    ∷ []

process_stream-Keeps_example : Keeps 3 replica (process_stream sum first commands replica)
process_stream-Keeps_example =
    process_stream-Keeps sum first 3 commands replica refl (unfold member_int in refl)

abbrev events : List RdbEvent
events =
    RdbEvent.database (pos 0)
    ∷ RdbEvent.key (codes "k") (RdbValue.string_value (codes "v")) none
    ∷ RdbEvent.key (codes "h") (RdbValue.hash_value []) none
    ∷ []

load-IsDirect_example :
    storage_after (load sum first 5 events (new_handler (new_memory []) []))
    ≡ direct sum first 5 [] events (pos 0) (new_memory [])
load-IsDirect_example = load-IsDirect sum first 5 events (new_memory []) []

abbrev stored : Option Client → Option Bytes
stored none = none
stored (some c) = reply (view sum c.storage 0 (codes "k"))

-- The replica of database 0 is told to select database 3 and to set a key there: it sets the key in
-- database 0.
misplaced_write : stored (process_stream sum first commands replica) ≡ some (codes "v")
unfolding process_stream view new_memory to_value
misplaced_write = refl
