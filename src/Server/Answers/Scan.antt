-- ===== src/Server/Answers/Scan.antt =====
-- KEYS and SCAN answer with one reply.
use redis_inmemory_replica.Base.{
  ℕ, ◌≤◌, Bool, inl, inr, List, [], ◌∷◌, Bytes, codes, bytes_eq, Option, none, some, ℤ, pos, negsuc,
  Result, ok, err, All, arith, Bool-cases, ◌==◌,
}
use redis_inmemory_replica.Protocol.Command.{to_upper}
use redis_inmemory_replica.Protocol.Integer.{decimal}
use redis_inmemory_replica.Replication.Apply.{atoi}
use redis_inmemory_replica.Storage.Memory.Keyspace.{keys}
use redis_inmemory_replica.Storage.Memory.Scan.{scan_keys, max_capacity}
use redis_inmemory_replica.Server.{Session}
use redis_inmemory_replica.Server.Items.{Item, Items, texts}
use redis_inmemory_replica.Server.Data.{
  arity_error, ScanError, scan_error_text, with_count, scan_options, handle_keys, scan_from,
  scan_cursor, handle_scan,
}
use redis_inmemory_replica.Server.Answers.{
  Ready, Answers, reply_error-Answers, reply_array-Answers, call-Answers,
}
use redis_inmemory_replica.Server.Answers.Storage.{keys-Returns, scan_keys-Returns}

-- The number that an argument is, if it is one, is small enough for a slice of that many strings.
abbrev pub IsSmall : Option ℤ → Type 0
IsSmall none = Unit
IsSmall (some (negsuc n)) = Unit
IsSmall (some (pos n)) = n ≤ max_capacity

abbrev pub SmallNumbers : List Bytes → Type 0
SmallNumbers = All (λ arg. IsSmall (atoi arg))

-- The count of `SCAN` is positive and not too large.
abbrev Scanned : Result ScanError (Bytes × ℤ) → Type 0
Scanned (err e) = Unit
Scanned (ok (pattern, pos n)) = n ≤ max_capacity
Scanned (ok (pattern, negsuc n)) = ⊥

with_count-Scanned :
    (next : ℤ → Result ScanError (Bytes × ℤ)) (o : Option ℤ)
    → IsSmall o
    → ((n : ℕ) → n ≤ max_capacity → Scanned (next (pos n)))
    → Scanned (with_count next o)
with_count-Scanned next none h p = tt
with_count-Scanned next (some (negsuc n)) h p = tt
with_count-Scanned next (some (pos n)) h p = elim (Bool-cases (n == 0)) [
  | inl on ↦ rw on tt
  | inr off ↦ rw off (p n h)
]

scan_options-Scanned :
    (options : List Bytes) (pattern : Bytes) (n : ℕ)
    → SmallNumbers options
    → n ≤ max_capacity
    → Scanned (scan_options options pattern (pos n))
unfolding scan_options
scan_options-Scanned [] pattern n s h = h
scan_options-Scanned (arg ∷ []) pattern n s h =
    elim (Bool-cases (bytes_eq (to_upper arg) (codes "MATCH"))) [
      | inl on ↦ rw on tt
      | inr off ↦ elim (Bool-cases (bytes_eq (to_upper arg) (codes "COUNT"))) [
        | inl on ↦ rw (off, on) tt
        | inr miss ↦ rw (off, miss) h
      ]
    ]
scan_options-Scanned (arg ∷ value ∷ rest) pattern n s h =
    let matched = scan_options-Scanned rest value n s.1.1 h in
    let counted =
      with_count-Scanned (scan_options rest pattern) (atoi value) s.1.0
        (λ m k. scan_options-Scanned rest pattern m s.1.1 k) in
    let other = scan_options-Scanned (value ∷ rest) pattern n s.1 h in
    elim (Bool-cases (bytes_eq (to_upper arg) (codes "MATCH"))) [
      | inl on ↦ rw on matched
      | inr off ↦ elim (Bool-cases (bytes_eq (to_upper arg) (codes "COUNT"))) [
        | inl on ↦ rw (off, on) counted
        | inr miss ↦ rw (off, miss) other
      ]
    ]

module _ (hash : Bytes → ℕ) (clock : ℕ → ℕ) {L : Type 0} (c : Session L) where
  abbrev Answered : Option (Session L) → Type 0
  Answered = Answers hash clock c

  module _ (print : Item → Bytes) where
    module _ (matches : Bytes → Bytes → Bool) where
      pub handle_keys-Answers :
          (args : List Bytes) (d : Session L)
          → Ready hash clock c d
          → Answered (handle_keys hash clock print matches args d)
      unfolding handle_keys
      handle_keys-Answers [] d p = reply_error-Answers hash clock c d (arity_error (codes "keys")) p
      handle_keys-Answers (pattern ∷ []) d p =
          call-Answers hash clock (keys matches clock pattern) _ c d
            (keys-Returns hash clock matches clock pattern)
            (λ found e q. reply_array-Answers hash clock print c e (texts found) q) p
      handle_keys-Answers (_ ∷ _ ∷ _) d p =
          reply_error-Answers hash clock c d (arity_error (codes "keys")) p

      scan_from-Answers :
          (cursor : ℤ) (r : Result ScanError (Bytes × ℤ)) (d : Session L)
          → Scanned r
          → Ready hash clock c d
          → Answered (scan_from hash clock print matches cursor r d)
      scan_from-Answers cursor (err e) d s p =
          reply_error-Answers hash clock c d (scan_error_text e) p
      scan_from-Answers cursor (ok (pattern, negsuc n)) d s p = absurd s
      scan_from-Answers cursor (ok (pattern, pos n)) d s p =
          call-Answers hash clock (scan_keys matches clock cursor pattern (pos n)) _ c d
            (scan_keys-Returns hash clock matches clock cursor pattern n s)
            (λ found e q.
              reply_array-Answers hash clock print c e
                (Items.more (Item.text (decimal found.0))
                  (Items.more (Item.list (texts found.1)) Items.none))
                q)
            p

      scan_cursor-Answers :
          (options : List Bytes) (o : Option ℤ) (d : Session L)
          → SmallNumbers options
          → Ready hash clock c d
          → Answered (scan_cursor hash clock print matches options o d)
      scan_cursor-Answers options none d s p =
          reply_error-Answers hash clock c d (codes "ERR invalid cursor") p
      scan_cursor-Answers options (some cursor) d s p =
          scan_from-Answers cursor (scan_options options [] (pos 10)) d
            (scan_options-Scanned options [] 10 s (omega arith)) p

      pub handle_scan-Answers :
          (args : List Bytes) (d : Session L)
          → SmallNumbers args
          → Ready hash clock c d
          → Answered (handle_scan hash clock print matches args d)
      unfolding handle_scan
      handle_scan-Answers [] d s p =
          reply_error-Answers hash clock c d (arity_error (codes "scan")) p
      handle_scan-Answers (cursor ∷ options) d s p =
          scan_cursor-Answers options (atoi cursor) d s.1 p
