-- ===== src/Server/Answers.antt =====
-- What a command may do to a connection: the engine shows every client the same, and exactly one reply
-- is sent.
pub mod Storage
pub mod Handlers
pub mod Scan
pub mod Admin
pub mod Redirect
pub mod Scripts
pub mod Commands
pub mod Pipeline
pub mod Guard
pub mod Reads
use mathlib.Core.List.{append_assoc}
use redis_inmemory_replica.Base.{
  ℕ, ◌+◌, ◌≤◌, ◌≡◌, ◌≢◌, refl, sym, ap, ◌∙◌, Bool, true, false, List, [], ◌∷◌, ◌++◌, Bytes, Option,
  none, some, ℤ, pos, All, arith, ◌==◌, if◌then◌else◌,
}
use redis_inmemory_replica.Protocol.Reader.Lines.{IsLine}
use redis_inmemory_replica.Protocol.Writer.{
  write_value, write_simple_string, write_integer, write_bulk_string, write_null_bulk_string,
}
use redis_inmemory_replica.Protocol.Resp.{Resp, Resps, to_value, to_values}
use redis_inmemory_replica.Protocol.Resp.RoundTrip.{wire, write_value-to_value}
use redis_inmemory_replica.Server.Dispatch.{close, quitting}
use redis_inmemory_replica.Storage.Memory.{Memory, M}
use redis_inmemory_replica.Storage.Memory.WellFormed.{IsWellFormed, view}
use redis_inmemory_replica.Storage.Memory.Methods.{live}
use redis_inmemory_replica.Server.{Session, Act, with_storage, call}
use redis_inmemory_replica.Server.Items.{
  Item, Items, Pairs, null, text, slice, int, flag, float, list, strings, fields, none, more,
  convert_to_value, convert_values, bulk_values, flat, texts,
}
use redis_inmemory_replica.Server.Replies.{
  clean, clean_byte, send, reply_string, reply_error, reply_bulk, reply_null, reply_integer,
  reply_array, reply_values, write_result,
}

-- The lines of a reply hold no line feed.
abbrev pub IsSafe : Resp → Type 0
IsSafe (Resp.simple d) = IsLine d
IsSafe (Resp.error d) = IsLine d
IsSafe r = Unit

IsLine-clean : (s : Bytes) → IsLine (clean s)
IsLine-clean [] = tt
IsLine-clean (c ∷ s) = (byte, IsLine-clean s)
  where
    byte : clean_byte c ≢ 10
    byte = ground arith

-- Converted items are the value of a reply.
module _ (print : Item → Bytes) where
  bulks : (ss : List Bytes) → (rs : Resps) × (bulk_values ss ≡ to_values rs)
  unfolding to_value
  bulks [] = (Resps.none, refl)
  bulks (s ∷ ss) = let (rs, e) = bulks ss in (Resps.more (Resp.bulk s) rs, rw e refl)

  mutual
    unfolding convert_to_value to_value

    converted : (i : Item) → (r : Resp) × (convert_to_value print i ≡ to_value r)
    converted null = (Resp.null_bulk, refl)
    converted (text s) = (Resp.bulk s, refl)
    converted (slice b) = (Resp.bulk b, refl)
    converted (int n) = (Resp.number n, refl)
    converted (flag true) = (Resp.number (pos 1), refl)
    converted (flag false) = (Resp.null_bulk, refl)
    converted (float w) = (Resp.bulk (print (float w)), refl)
    converted (list is) = let (rs, e) = all_converted is in (Resp.items rs, rw e refl)
    converted (strings ss) = let (rs, e) = bulks ss in (Resp.items rs, rw e refl)
    converted (fields ps) = (Resp.bulk (print (fields ps)), refl)

    all_converted : (is : Items) → (rs : Resps) × (convert_values print is ≡ to_values rs)
    all_converted none = (Resps.none, refl)
    all_converted (more i is) =
        let (r, e) = converted i in
        let (rs, f) = all_converted is in (Resps.more r rs, rw (e, f) refl)

module _ (hash : Bytes → ℕ) (clock : ℕ → ℕ) where
  -- The engine is well formed, and from every reading of the clock on it shows what it showed.
  pub record Unseen (s s' : Memory) : Type 0 where
    pub well_formed : IsWellFormed hash s'
    pub lives :
        (n : ℕ) (j : Bytes) (t : ℕ)
        → ((i : ℕ) → clock i ≤ t)
        → live t (view hash s' n j) ≡ live t (view hash s n j)

  pub Unseen-trans : (s t u : Memory) → Unseen s t → Unseen t u → Unseen s u
  Unseen-trans s t u p q = record {
    well_formed = q.well_formed;
    lives = λ n j m h. q.lives n j m h ∙ p.lives n j m h;
  }

  pub Unseen-refl : (s : Memory) → IsWellFormed hash s → Unseen s s
  Unseen-refl s w = record { well_formed = w; lives = λ n j t h. refl }

  module _ {L : Type 0} where
    -- Before a reply: nothing is sent yet.
    pub record Ready (c d : Session L) : Type 0 where
      pub unseen : Unseen c.server.storage d.server.storage
      pub unsent : d.sent ≡ c.sent
      pub closing : d.closed ≡ c.closed

    -- After it: one reply is sent, and the connection is closed or left as it was.
    pub record Served (closes : Bool) (c d : Session L) : Type 0 where
      pub unseen : Unseen c.server.storage d.server.storage
      pub reply : (r : Resp) × (d.sent ≡ c.sent ++ wire r) × IsSafe r
      pub closing : d.closed ≡ (if closes then true else c.closed)

    abbrev pub Finishes : Bool → Session L → Option (Session L) → Type 0
    Finishes closes c o = (d : Session L) × (o ≡ some d) × Served closes c d

    abbrev pub Answers : Session L → Option (Session L) → Type 0
    Answers = Finishes false

    answered :
        (c d : Session L) (r : Resp) → Ready c d → IsSafe r → Answers c (some (send (wire r) d))
    answered c d r p h = (
      send (wire r) d,
      refl,
      record {
        unseen = p.unseen;
        reply = (r, ap (λ s. s ++ wire r) p.unsent, h);
        closing = p.closing;
      },
    )

    pub reply_string-Answers :
        (c d : Session L) (s : Bytes) → IsLine s → Ready c d → Answers c (reply_string s d)
    unfolding reply_string wire
    reply_string-Answers c d s h p = answered c d (Resp.simple s) p h

    pub reply_error-Answers :
        (c d : Session L) (s : Bytes) → Ready c d → Answers c (reply_error s d)
    unfolding reply_error wire
    reply_error-Answers c d s p =
        answered c
          (record d { server = record (d.server) { error_count = d.server.error_count + 1 } })
          (Resp.error (clean s))
          (record { unseen = p.unseen; unsent = p.unsent; closing = p.closing }) (IsLine-clean s)

    pub reply_bulk-Answers : (c d : Session L) (s : Bytes) → Ready c d → Answers c (reply_bulk s d)
    unfolding reply_bulk wire
    reply_bulk-Answers c d s p = answered c d (Resp.bulk s) p tt

    pub reply_null-Answers : (c d : Session L) → Ready c d → Answers c (reply_null d)
    unfolding reply_null wire
    reply_null-Answers c d p = answered c d Resp.null_bulk p tt

    pub reply_integer-Answers :
        (c d : Session L) (n : ℤ) → Ready c d → Answers c (reply_integer n d)
    unfolding reply_integer wire
    reply_integer-Answers c d n p = answered c d (Resp.number n) p tt

    pub reply_array-Answers :
        (print : Item → Bytes) (c d : Session L) (is : Items)
        → Ready c d
        → Answers c (reply_array print is d)
    unfolding reply_array to_value
    reply_array-Answers print c d is p =
        let (rs, e) = all_converted print is in
        let sent : write_value (to_value (Resp.items rs)) ≡ some (wire (Resp.items rs)) =
          write_value-to_value (Resp.items rs) in
        rw (e, sent) (answered c d (Resp.items rs) p tt)

    pub quitting-Answers :
        (c : Session L) (o : Option (Session L)) → Answers c o → Finishes true c (quitting o)
    quitting-Answers c none (d, e, p) = cc
    quitting-Answers c (some d) (d', e, p) =
        (close d', ap quitting e, record { unseen = p.unseen; reply = p.reply; closing = refl })

  -- A call of the engine that returns, and shows every client the same.
  module _ {A : Type 0} where
    abbrev pub Returned : Memory → Option (A × Memory) → Type 0
    Returned s o = (a : A) × (s' : Memory) × (o ≡ some (a, s')) × Unseen s s'

    abbrev pub Returns : M A → Type 0
    Returns m = (s : Memory) → IsWellFormed hash s → Returned s (m s)

    pub call-Answers :
        {L : Type 0} (m : M A) (next : A → Act L) (c d : Session L)
        → Returns m
        → ((a : A) (e : Session L) → Ready c e → Answers c (next a e))
        → Ready c d
        → Answers c (call m next d)
    call-Answers m next c d returns after p =
        let (a, s', run, same) = returns d.server.storage p.unseen.well_formed in
        rw run (
          after a (with_storage d s') (record {
            unseen = Unseen-trans c.server.storage d.server.storage s' p.unseen same;
            unsent = p.unsent;
            closing = p.closing;
          }))
