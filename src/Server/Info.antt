-- ===== src/Server/Info.antt =====
-- `handleInfo` of server/server.go. The reports of the engine on its memory and its keys, with their
-- floating-point numbers, are parameters.
use redis_inmemory_replica.Base.{
  ℕ, Bool, List, [], ◌∷◌, ◌++◌, Bytes, codes, bytes_eq, map, Option, none, some, leb, ◌&&◌, ◌||◌,
  ◌==◌, if◌then◌else◌,
}
use redis_inmemory_replica.Protocol.Integer.{format_int}
use redis_inmemory_replica.Protocol.Reader.{crlf_bytes}
use redis_inmemory_replica.Storage.Memory.{Memory}
use redis_inmemory_replica.Server.{Server, SyncStatus, Act}
use redis_inmemory_replica.Server.Replies.{reply_bulk}
use redis_inmemory_replica.Server.Admin.{to_lower, lower_byte}

-- What is written of the engine for the sections on its memory and on its keys.
pub record Reports : Type 0 where
  pub memory : Memory → Bytes
  pub keyspace : Memory → Bytes

abbrev pub lines : List Bytes → Bytes
lines [] = []
lines (l ∷ ls) = l ++ (crlf_bytes ++ lines ls)

abbrev pub sections_of : List Bytes → List Bytes
sections_of [] = codes "all" ∷ []
sections_of (arg ∷ args) = map to_lower (arg ∷ args)

abbrev pub server_section : Bytes
server_section = lines (
    codes "# Server"
    ∷ codes "redis_version:7.0.0"
    ∷ codes "redis_mode:replica"
    ∷ codes "arch_bits:64"
    ∷ codes "os:Linux"
    ∷ []
    ∷ [])

abbrev pub status_lines : Option SyncStatus → List Bytes
status_lines none =
    codes "master_host:unknown"
    ∷ codes "master_link_status:down"
    ∷ codes "master_last_io_seconds_ago:-1"
    ∷ codes "master_sync_in_progress:0"
    ∷ codes "master_repl_offset:0"
    ∷ []
status_lines (some status) =
    (codes "master_host:" ++ status.master_host)
    ∷ (codes "master_link_status:" ++ (if status.connected then codes "up" else codes "down"))
    ∷ (codes "master_last_io_seconds_ago:" ++ format_int status.last_sync_seconds)
    ∷ (codes "master_sync_in_progress:"
        ++ (if status.initial_sync_completed then codes "0" else codes "1"))
    ∷ (codes "master_repl_offset:" ++ format_int status.replication_offset)
    ∷ []

abbrev pub replication_section : Option SyncStatus → Bytes
replication_section sync =
    lines (codes "# Replication" ∷ codes "role:slave" ∷ status_lines sync) ++ crlf_bytes

-- `unicode.IsSpace` on ASCII.
abbrev pub is_space : ℕ → Bool
is_space c = (c == 32) || (leb 9 c && leb c 13)

abbrev pub trim_left : Bytes → Bytes
trim_left [] = []
trim_left (c ∷ s) = let rest = trim_left s in if is_space c then rest else c ∷ s

abbrev pub trim_right : Bytes → Bytes
trim_right [] = []
trim_right (c ∷ s) =
    let rest = trim_right s in if is_space c && bytes_eq rest [] then [] else c ∷ rest

-- `strings.TrimSpace` on ASCII.
unfoldable pub trim_space : Bytes → Bytes
unfolding bytes_eq
trim_space s = trim_right (trim_left s)

abbrev pub when : Bool → Bytes → Bytes
when b text = if b then text else []

abbrev pub asks : Bytes → Bytes → Bool
asks section name = bytes_eq section (codes "all") || bytes_eq section name

module _ {L : Type 0} (reports : Reports) where
  -- One round of the loop over the sections.
  unfoldable pub section_text : Server L → Bytes → Bytes
  unfolding bytes_eq format_int
  section_text s section =
      when (asks section (codes "server")) server_section
      ++ (when (asks section (codes "replication")) (replication_section s.sync)
          ++ (when (asks section (codes "memory")) (reports.memory s.storage)
              ++ when (asks section (codes "keyspace")) (reports.keyspace s.storage)))

  unfoldable pub info_text : Server L → List Bytes → Bytes
  unfolding section_text
  info_text s [] = []
  info_text s (section ∷ sections) = section_text s section ++ info_text s sections

  -- `handleInfo`
  unfoldable pub handle_info : List Bytes → Act L
  unfolding lower_byte info_text trim_space reply_bulk
  handle_info args c = reply_bulk (trim_space (info_text c.server (sections_of args))) c
