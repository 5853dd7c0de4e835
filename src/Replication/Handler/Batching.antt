-- ===== src/Replication/Handler/Batching.antt =====
-- Batching shows in nothing but the time: a load leaves the engine as it is when every key of the
-- snapshot is set at once.
use redis_inmemory_replica.Base.{
  ℕ, ◌≡◌, refl, sym, ap, ◌∙◌, Bool, true, false, inl, inr, List, [], ◌∷◌, ◌++◌, Bytes, Option, none,
  some, ℤ, pos, ok, err, length, leb, ◌==◌, length-append, Bool-cases, arith, if◌then◌else◌,
}
use redis_inmemory_replica.Storage.Memory.{Shard, Memory}
use redis_inmemory_replica.Storage.Memory.Keyspace.{select_db}
use redis_inmemory_replica.Storage.Memory.Access.{set_key}
use redis_inmemory_replica.Replication.Apply.{Outcome, selected}
use redis_inmemory_replica.Replication.Handler.{
  RdbValue, string_value, hash_value, list_value, set_value, other_value, Handler, passes, emptied,
  with_storage, after_select, on_ok, failed, then_items, flush_items, flush_batch, select_allowed,
  on_database, recorded_key, pushed, flush_full, on_value, on_key, on_end, RdbEvent, database, key,
  load, new_handler,
}

-- What is left of an outcome when only the engine counts.
abbrev pub storage_after : Outcome Handler → Outcome Memory
storage_after none = none
storage_after (some (r, h)) = some (r, h.storage)

-- The three slices have one length.
abbrev pub Aligned : Handler → Type 0
Aligned h =
    (length h.value_batch ≡ length h.key_batch) × (length h.expiry_batch ≡ length h.key_batch)

abbrev from : (Memory → Outcome Memory) → Option Memory → Outcome Memory
from f none = none
from f (some s) = f s

from-ext :
    (f g : Memory → Outcome Memory) (o : Option Memory)
    → ((s : Memory) → f s ≡ g s)
    → from f o ≡ from g o
from-ext f g none h = refl
from-ext f g (some s) h = h s

length-nil {ℓ} : {A : Type ℓ} (xs : List A) → length xs ≡ 0 → [] ≡ xs
length-nil [] h = refl
length-nil (x ∷ xs) h = absurd (omega arith)

emptied_lem :
    (h : Handler)
    → [] ≡ h.key_batch
    → [] ≡ h.value_batch
    → [] ≡ h.expiry_batch
    → emptied h h.storage ≡ h
emptied_lem h p q r =
    ap (λ k. record h { key_batch = k; value_batch = []; expiry_batch = [] }) p
    ∙ ap (λ v. record h { value_batch = v; expiry_batch = [] }) q
    ∙ ap (λ e. record h { expiry_batch = e }) r

module _ (hash : Bytes → ℕ) (choose : Shard → ℕ) (now : ℕ) where
  abbrev now_or_set : (Memory → Outcome Memory) → Option (Unit {0} × Memory) → Outcome Memory
  now_or_set f none = none
  now_or_set f (some (u, s)) = f s

  abbrev direct_value :
      (Memory → Outcome Memory) → Bytes → RdbValue → Option ℕ → Memory → Outcome Memory
  direct_value next k (string_value b) expiry s =
      now_or_set next (set_key hash choose now k b expiry s)
  direct_value next k _ expiry s = next s

  -- The load without batches: every string of a database that passes is set when it comes.
  unfoldable pub direct : List ℤ → List RdbEvent → ℤ → Memory → Outcome Memory
  unfolding passes select_db set_key
  direct dbs [] db s = some (ok tt, s)
  direct dbs (database index ∷ events) db s =
      let next : Memory → Outcome Memory = direct dbs events index in
      if passes dbs index then on_ok next failed (selected (select_db index s)) else next s
  direct dbs (key k v expiry ∷ events) db s =
      let next : Memory → Outcome Memory = direct dbs events db in
      if passes dbs db then direct_value next k v expiry s else next s

  -- The engine when the batch is written.
  abbrev pub pending : Handler → Option Memory
  pending h = flush_items hash choose now h.key_batch h.value_batch h.expiry_batch h.storage

  flush_items-nil :
      (ks vs : List Bytes) (es : List (Option ℕ)) (s : Memory)
      → [] ≡ ks
      → flush_items hash choose now ks vs es s ≡ some s
  unfolding flush_items
  flush_items-nil [] vs es s p = refl
  flush_items-nil (x ∷ ks) vs es s p = cc

  flush_batch-pending :
      (h : Handler) → Aligned h → flush_batch hash choose now h ≡ with_storage h (pending h)
  unfolding flush_batch
  flush_batch-pending h a = elim (Bool-cases (length h.key_batch == 0)) [
    | inl zero_long ↦
        let n : length h.key_batch ≡ 0 = ground arith in
        let p = length-nil h.key_batch n in
        rw zero_long (
          ap (λ g. some (ok tt, g))
            (sym (
              emptied_lem h p (length-nil h.value_batch (a.0 ∙ n))
                (length-nil h.expiry_batch (a.1 ∙ n))))
          ∙ ap (with_storage h)
              (sym (flush_items-nil h.key_batch h.value_batch h.expiry_batch h.storage p)))
    | inr more ↦ rw more refl
  ]

  abbrev then_set : Bytes → Bytes → Option ℕ → Option Memory → Option Memory
  then_set k v e none = none
  then_set k v e (some s) = then_items hash choose now some (set_key hash choose now k v e s)

  -- A key that is pushed is set after all others of its batch.
  flush_items-append :
      (ks vs : List Bytes) (es : List (Option ℕ)) (k v : Bytes) (e : Option ℕ) (s : Memory)
      → length vs ≡ length ks
      → length es ≡ length ks
      → flush_items hash choose now (ks ++ k ∷ []) (vs ++ v ∷ []) (es ++ e ∷ []) s
        ≡ then_set k v e (flush_items hash choose now ks vs es s)
  unfolding flush_items
  flush_items-append [] [] [] k v e s p q = last (set_key hash choose now k v e s)
    where
      last :
          (o : Option (Unit {0} × Memory))
          → then_items hash choose now (λ t. some t) o ≡ then_items hash choose now some o
      last o = refl
  flush_items-append [] (y ∷ vs) es k v e s p q = absurd (omega arith)
  flush_items-append [] [] (z ∷ es) k v e s p q = absurd (omega arith)
  flush_items-append (x ∷ ks) [] es k v e s p q = absurd (omega arith)
  flush_items-append (x ∷ ks) (y ∷ vs) [] k v e s p q = absurd (omega arith)
  flush_items-append (x ∷ ks) (y ∷ vs) (z ∷ es) k v e s p q =
      step (set_key hash choose now x y z s)
        (λ t. flush_items-append ks vs es k v e t (omega arith) (omega arith))
    where
      step :
          (o : Option (Unit {0} × Memory))
          → ((t : Memory)
              → flush_items hash choose now (ks ++ k ∷ []) (vs ++ v ∷ []) (es ++ e ∷ []) t
                ≡ then_set k v e (flush_items hash choose now ks vs es t))
          → then_items hash choose now
              (flush_items hash choose now (ks ++ k ∷ []) (vs ++ v ∷ []) (es ++ e ∷ []))
              o
            ≡ then_set k v e (then_items hash choose now (flush_items hash choose now ks vs es) o)
      step none h = refl
      step (some (u, t)) h = h t

  pushed-Aligned :
      (k b : Bytes) (e : Option ℕ) (h : Handler)
      → Aligned h
      → Aligned (pushed hash choose now k b e h)
  pushed-Aligned k b e h a = (
    omega (arith, length-append h.value_batch (b ∷ []), length-append h.key_batch (k ∷ [])),
    omega (arith, length-append h.expiry_batch (e ∷ []), length-append h.key_batch (k ∷ [])),
  )

  -- What the load of the rest has to do, for every handler that it can start from.
  abbrev Continues : List RdbEvent → Type 0
  Continues events =
      (h : Handler)
      → Aligned h
      → storage_after (load hash choose now events h)
        ≡ from (direct h.databases events h.current_db) (pending h)

  flushed :
      (f : Handler → Outcome Handler) (g : Memory → Outcome Memory) (h : Handler)
      → Aligned h
      → ((s : Memory) → storage_after (f (emptied h s)) ≡ g s)
      → storage_after (on_ok f failed (flush_batch hash choose now h)) ≡ from g (pending h)
  flushed f g h a k =
      ap (λ o. storage_after (on_ok f failed o)) (flush_batch-pending h a) ∙ split (pending h)
    where
      split : (o : Option Memory) → storage_after (on_ok f failed (with_storage h o)) ≡ from g o
      split none = refl
      split (some s) = k s

  flush_full-Continues :
      (events : List RdbEvent) (h : Handler)
      → Continues events
      → Aligned h
      → storage_after (on_ok (load hash choose now events) failed (flush_full hash choose now h))
        ≡ from (direct h.databases events h.current_db) (pending h)
  unfolding flush_full
  flush_full-Continues events h ih a = elim (Bool-cases (leb h.batch_size (length h.key_batch))) [
    | inl full ↦ rw full (
        flushed (load hash choose now events) (direct h.databases events h.current_db) h a
          (λ s. ih (emptied h s) (refl, refl) ∙ unfold flush_items in refl))
    | inr more ↦ rw more (ih h a)
  ]

  from-then_set :
      (next : Memory → Outcome Memory) (k b : Bytes) (e : Option ℕ) (o : Option Memory)
      → from next (then_set k b e o) ≡ from (direct_value next k (string_value b) e) o
  from-then_set next k b e none = refl
  from-then_set next k b e (some s) = split (set_key hash choose now k b e s)
    where
      split :
          (o : Option (Unit {0} × Memory))
          → from next (then_items hash choose now some o) ≡ now_or_set next o
      split none = refl
      split (some (u, t)) = refl

  on_value-Continues :
      (events : List RdbEvent) (k : Bytes) (v : RdbValue) (e : Option ℕ) (h : Handler)
      → Continues events
      → Aligned h
      → storage_after
          (on_ok (load hash choose now events) failed (on_value hash choose now k v e h))
        ≡ from (direct_value (direct h.databases events h.current_db) k v e) (pending h)
  on_value-Continues events k (string_value b) e h ih a =
      flush_full-Continues events (pushed hash choose now k b e h) ih (pushed-Aligned k b e h a)
      ∙ ap (from (direct h.databases events h.current_db))
          (flush_items-append h.key_batch h.value_batch h.expiry_batch k b e h.storage a.0 a.1)
      ∙ from-then_set (direct h.databases events h.current_db) k b e (pending h)
  on_value-Continues events k (hash_value m) e h ih a = ih h a
  on_value-Continues events k (list_value m) e h ih a = ih h a
  on_value-Continues events k (set_value m) e h ih a = ih h a
  on_value-Continues events k other_value e h ih a = ih h a

  on_database-Continues :
      (events : List RdbEvent) (index : ℤ) (h : Handler)
      → Continues events
      → Aligned h
      → storage_after
          (on_ok (load hash choose now events) failed (on_database hash choose now index h))
        ≡ from (direct h.databases (database index ∷ events) h.current_db) (pending h)
  unfolding on_database direct flush_items
  on_database-Continues events index h ih a =
      ap storage_after (assoc (flush_batch hash choose now h))
      ∙ flushed (λ g. after (switched g))
          (direct h.databases (database index ∷ events) h.current_db) h a
          (λ s. elim (Bool-cases (passes h.databases index)) [
            | inl on ↦ rw on (chosen (emptied h s) (select_db index s))
            | inr off ↦ rw off (ih (record (emptied h s) { current_db = index }) (refl, refl))
          ])
    where
      after : Outcome Handler → Outcome Handler
      after = on_ok (load hash choose now events) failed

      switched : Handler → Outcome Handler
      switched g = select_allowed hash choose now index (record g { current_db = index })

      assoc :
          (o : Outcome Handler)
          → after (on_ok switched failed o) ≡ on_ok (λ g. after (switched g)) failed o
      assoc none = refl
      assoc (some (ok u, g)) = refl
      assoc (some (err e, g)) = refl

      chosen :
          (g : Handler) (r : Memory × Bool)
          → storage_after
              (after (after_select (record (emptied h g.storage) { current_db = index }) r))
            ≡ on_ok (direct h.databases events index) failed (selected r)
      chosen g (s, true) = ih (record (emptied h s) { current_db = index }) (refl, refl)
      chosen g (s, false) = refl

  load-direct : (events : List RdbEvent) → Continues events
  unfolding load direct on_key on_end
  load-direct [] h a = ap storage_after (flush_batch-pending h a) ∙ split (pending h)
    where
      split : (o : Option Memory) → storage_after (with_storage h o) ≡ from (λ s. some (ok tt, s)) o
      split none = refl
      split (some s) = refl
  load-direct (database index ∷ events) h a =
      on_database-Continues events index h (load-direct events) a
  load-direct (key k v e ∷ events) h a = elim (Bool-cases (passes h.databases h.current_db)) [
    | inl on ↦
        rw on (
          on_value-Continues events k v e (recorded_key hash choose now v h) (load-direct events) a)
        ∙ from-ext (direct_value (direct h.databases events h.current_db) k v e)
            (direct h.databases (key k v e ∷ events) h.current_db) (pending h) (λ s. rw on refl)
    | inr off ↦
        rw off (load-direct events h a)
        ∙ from-ext (direct h.databases events h.current_db)
            (direct h.databases (key k v e ∷ events) h.current_db) (pending h) (λ s. rw off refl)
  ]

  -- The load of a snapshot by a fresh handler ends with the error, or the success, and the engine that
  -- result when every string of a database that passes the filter is set at once, one after the other.
  pub load-IsDirect :
      (events : List RdbEvent) (s : Memory) (dbs : List ℤ)
      → storage_after (load hash choose now events (new_handler s dbs))
        ≡ direct dbs events (pos 0) s
  unfolding new_handler flush_items
  load-IsDirect events s dbs = load-direct events (new_handler s dbs) (refl, refl)
