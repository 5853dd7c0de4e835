-- ===== src/Replication/Rdb/RoundTrip.antt =====
-- The parser at an encoded snapshot makes the calls of the snapshot.
use mathlib.Core.List.{append_assoc}
use redis_inmemory_replica.Base.{
  ℕ, zero, suc, ◌+◌, ◌≤◌, ◌≡◌, refl, sym, ap, ◌∙◌, false, List, [], ◌∷◌, ◌++◌, Bytes, codes,
  bytes_eq, ok, err, Option, none, some, ℤ, pos, length, All, arith, ltb,
}
use redis_inmemory_replica.Stream.{read_full}
use redis_inmemory_replica.Stream.Consume.{read_full-append}
use redis_inmemory_replica.Replication.Apply.{Outcome, atoi}
use redis_inmemory_replica.Replication.Handler.{on_ok, failed}
use redis_inmemory_replica.Replication.Rdb.{
  VersionStrategy, strategy_of, RdbError, aux_failed, Input,
}
use redis_inmemory_replica.Replication.Rdb.Strings.Encode.{
  Text, text_of, IsText, encode_text, encode_length, read_length-encode_length,
  read_string-encode_text, read_little-little_bytes,
}
use redis_inmemory_replica.Replication.Rdb.Values.Encode.{
  Item, text, list, set, quicklist, hash, item_type, item_value, IsItem, encode_item,
  read_value-encode_item,
}
use redis_inmemory_replica.Replication.Rdb.Parse.{
  RdbHandler, Parsed, ended, called, called_or_skipped, step, loop, with_header, versioned,
  max_supported_version, parse_rdb, on_key_value, read_key_value, from_seconds, from_millis,
}
use redis_inmemory_replica.Replication.Rdb.Encode.{
  never, seconds, millis, Entry, database, aux, sizes, key, IsEntry, encode_entry, encode_entries,
  encode_snapshot, read_little-long_bytes, rounds, all_rounds, all_rounds-length, Quiet, IsQuiet,
  deliver_entry, deliver,
}

-- The fuel before an entry.
abbrev more : Entry → ℕ → ℕ
more (key (seconds t) k i) f = suc (suc f)
more (key (millis t) k i) f = suc (suc f)
more e f = suc f

more-split : (e : Entry) (m f : ℕ) → rounds e + m ≤ f → (f' : ℕ) × (f ≡ more e f') × (m ≤ f')
more-split (database n) m zero h = absurd (omega arith)
more-split (database n) m (suc f) h = (f, refl, omega arith)
more-split (aux k v) m zero h = absurd (omega arith)
more-split (aux k v) m (suc f) h = (f, refl, omega arith)
more-split (sizes n k) m zero h = absurd (omega arith)
more-split (sizes n k) m (suc f) h = (f, refl, omega arith)
more-split (key never k i) m zero h = absurd (omega arith)
more-split (key never k i) m (suc f) h = (f, refl, omega arith)
more-split (key (seconds t) k i) m zero h = absurd (omega arith)
more-split (key (seconds t) k i) m (suc zero) h = absurd (omega arith)
more-split (key (seconds t) k i) m (suc (suc f)) h = (f, refl, omega arith)
more-split (key (millis t) k i) m zero h = absurd (omega arith)
more-split (key (millis t) k i) m (suc zero) h = absurd (omega arith)
more-split (key (millis t) k i) m (suc (suc f)) h = (f, refl, omega arith)

module _ {H : Type 0} (handler : RdbHandler H) (quiet : IsQuiet handler)
    (strategy : VersionStrategy) where
  quiet-called :
      (next : Input → H → Parsed H) (f : RdbError → RdbError) (s : Input) (o : Outcome H)
      → Quiet o
      → called_or_skipped handler strategy next f s o ≡ called handler (next s) o
  quiet-called next f s none q = refl
  quiet-called next f s (some (ok u, h)) q = refl
  quiet-called next f s (some (err e, h)) q = absurd q

  loop-item :
      (f n : ℕ) (expiry : Option ℕ) (k : Text) (i : Item) (rest : Bytes) (h : H)
      → IsText k
      → IsItem i
      → loop handler strategy
          (suc f)
          expiry
          (n, item_type i ∷ ((encode_text k ++ encode_item i) ++ rest))
          h
        ≡ called handler
            (loop handler strategy f none (n, rest))
            (handler.on_key (text_of k) (item_value i) expiry h)
  unfolding loop step
  loop-item f n expiry k i rest h p q = by_type i q
    where
      again : ℕ → Option ℕ → Input → H → Parsed H
      again = loop handler strategy

      read :
          (j : Item)
          → IsItem j
          → read_key_value handler strategy
              (item_type j)
              (n, (encode_text k ++ encode_item j) ++ rest)
            ≡ (ok (text_of k, some (item_value j)), (n, rest))
      read j r =
          rw
            (
              append_assoc (encode_text k) (encode_item j) rest,
              read_string-encode_text strategy n k (encode_item j ++ rest) p,
              read_value-encode_item strategy n j rest r,
            )
            refl

      done :
          (j : Item)
          → IsItem j
          → on_key_value handler strategy (again f none) expiry h (
              read_key_value handler strategy
                (item_type j)
                (n, (encode_text k ++ encode_item j) ++ rest))
            ≡ called handler
                (again f none (n, rest))
                (handler.on_key (text_of k) (item_value j) expiry h)
      done j r =
          ap (on_key_value handler strategy (again f none) expiry h) (read j r)
          ∙ quiet-called (again f none) (λ e. e) (n, rest) _
              (quiet.keys (text_of k) (item_value j) expiry h)

      by_type :
          (j : Item)
          → IsItem j
          → again (suc f) expiry (n, item_type j ∷ ((encode_text k ++ encode_item j) ++ rest)) h
            ≡ called handler
                (again f none (n, rest))
                (handler.on_key (text_of k) (item_value j) expiry h)
      by_type (text t) r = done (text t) r
      by_type (list ts) r = done (list ts) r
      by_type (set ts) r = done (set ts) r
      by_type (quicklist ts) r = done (quicklist ts) r
      by_type (hash ps) r = done (hash ps) r

  loop-entry :
      (f n : ℕ) (e : Entry) (rest : Bytes) (h : H)
      → IsEntry e
      → loop handler strategy (more e f) none (n, encode_entry e ++ rest) h
        ≡ called handler (loop handler strategy f none (n, rest)) (deliver_entry handler e h)
  unfolding loop step encode_entry deliver_entry
  loop-entry f n (database d) rest h p = rw (read_length-encode_length n d rest p) refl
  loop-entry f n (aux k v) rest h (p, q) =
      rw
        (
          append_assoc (encode_text k) (encode_text v) rest,
          read_string-encode_text strategy n k (encode_text v ++ rest) p,
          read_string-encode_text strategy n v rest q,
        )
        (quiet-called (loop handler strategy f none) aux_failed (n, rest) _
          (quiet.auxs (text_of k) (text_of v) h))
  loop-entry f n (sizes d e) rest h (p, q) =
      rw
        (
          append_assoc (encode_length d) (encode_length e) rest,
          read_length-encode_length n d (encode_length e ++ rest) p,
          read_length-encode_length n e rest q,
        )
        refl
  loop-entry f n (key never k i) rest h (p, q, r) = loop-item f n none k i rest h q r
  loop-entry f n (key (seconds t) k i) rest h (p, q, r) =
      rw (read_little-little_bytes n t (item_type i ∷ ((encode_text k ++ encode_item i) ++ rest)) p)
        (loop-item f n (some (from_seconds t)) k i rest h q r)
  loop-entry f n (key (millis t) k i) rest h (p, q, r) =
      rw (read_little-long_bytes n t (item_type i ∷ ((encode_text k ++ encode_item i) ++ rest)) p)
        (loop-item f n (some (from_millis t)) k i rest h q r)

  called-ended :
      (es : List Entry) (next : H → Parsed H) (o : Outcome H)
      → ((h : H) → next h ≡ ended handler (deliver handler es h))
      → called handler next o ≡ ended handler (on_ok (deliver handler es) failed o)
  called-ended es next none p = refl
  called-ended es next (some (ok u, h)) p = p h
  called-ended es next (some (err e, h)) p = refl

  loop-entries :
      (es : List Entry) (f n : ℕ) (trailer : Bytes) (h : H)
      → All IsEntry es
      → all_rounds es ≤ f
      → loop handler strategy f none (n, encode_entries es trailer) h
        ≡ ended handler (deliver handler es h)
  unfolding encode_entries deliver
  loop-entries [] zero n trailer h p k = absurd (omega arith)
  loop-entries [] (suc f) n trailer h p k = unfold loop step in refl
  loop-entries (e ∷ es) f n trailer h p k =
      let (f', same, room) = more-split e (all_rounds es) f k in
      ap (λ g. loop handler strategy g none (n, encode_entries (e ∷ es) trailer) h) same
      ∙ loop-entry f' n e (encode_entries es trailer) h p.0
      ∙ called-ended es (loop handler strategy f' none (n, encode_entries es trailer))
          (deliver_entry handler e h) (λ g. loop-entries es f' n trailer g p.1 room)

-- A version that the parser takes: four bytes that are a number up to 12.
pub record IsVersion (text : Bytes) : Type 0 where
  pub number : ℕ
  pub four : length text ≡ 4
  pub reads : atoi text ≡ some (pos number)
  pub supported : number ≤ max_supported_version

-- Parsing an encoded snapshot of a supported version makes the calls of its entries, in their order
-- and with their expiries, then `OnEnd`, and returns the first error of `OnDatabase`, `OnResizeDB` or
-- `OnEnd`, where the handler has no error for keys and auxiliary fields. Whatever follows the end is
-- not looked at.
pub parse_rdb-encode_snapshot :
    {H : Type 0} (handler : RdbHandler H) (version : Bytes) (es : List Entry) (trailer : Bytes)
    (h : H)
    → IsQuiet handler
    → IsVersion version
    → All IsEntry es
    → parse_rdb handler (encode_snapshot version es trailer) h
      ≡ ended handler (deliver handler es h)
unfolding parse_rdb encode_snapshot bytes_eq
parse_rdb-encode_snapshot {H} handler version es trailer h quiet v p =
    ap (λ r. with_header handler r h) header ∙ after (atoi version) v.reads
  where
    magic : Bytes
    magic = codes "REDIS" ++ version

    header :
        read_full 9 (magic ++ encode_entries es trailer) ≡ (ok magic, encode_entries es trailer)
    header =
        let n : length magic ≡ 9 = omega (arith, v.four) in
        ap (λ m. read_full m (magic ++ encode_entries es trailer)) (sym n)
        ∙ read_full-append magic (encode_entries es trailer)

    after :
        (o : Option ℤ)
        → o ≡ some (pos v.number)
        → versioned handler version o (encode_entries es trailer) h
          ≡ ended handler (deliver handler es h)
    after o e =
        let small : ltb max_supported_version v.number ≡ false = ground (arith, v.supported) in
        rw (e, small)
          (loop-entries handler quiet (strategy_of (pos v.number)) es
            (suc (length (encode_entries es trailer))) 0 trailer h p
            (omega (arith, all_rounds-length es trailer)))
