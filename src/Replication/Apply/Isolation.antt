-- ===== src/Replication/Apply/Isolation.antt =====
-- A replica that is restricted to some databases leaves the others alone.
use redis_inmemory_replica.Base.{
  ℕ, ◌≡◌, ◌≢◌, refl, ap, ◌∙◌, Bool, true, false, ◌&&◌, ◌||◌, not, inl, inr, List, [], ◌∷◌, Bytes,
  codes, bytes_eq, bytes_eq→eq, Option, none, some, ℤ, pos, negsuc, Result, ok, err, arith,
  Bool-cases, ltb, ◌==◌, if◌then◌else◌,
}
use redis_inmemory_replica.Protocol.Types.{Value}
use redis_inmemory_replica.Protocol.Command.{Command, CommandError, parse_command}
use redis_inmemory_replica.Storage.Map.{lookup, nat_key}
use redis_inmemory_replica.Storage.Map.Laws.{lookup-insert}
use redis_inmemory_replica.Storage.Memory.{Shard, Database, Memory}
use redis_inmemory_replica.Storage.Memory.Keyspace.{with_new, select_db, new_sharded_database}
use redis_inmemory_replica.Storage.Memory.Access.{set_key}
use redis_inmemory_replica.Storage.Memory.Batch.{del}
use redis_inmemory_replica.Storage.Memory.Frame.{Frame, set_key-IsLocal, del-IsLocal}
use redis_inmemory_replica.Replication.Apply.{
  member_int, is_data_command, atoi, Client, Outcome, done, selected, select_number, execute_select,
  nonempty, blocked_number, blocked_select, skipped, executed, count_command, execute_set,
  execute_command, process_parsed, process_command, process_stream, and_then,
}

-- What it says that none of the three early returns is taken.
database_kept :
    (f b d e p q : Bool)
    → f || b && d && e || d && p && not q ≡ false
    → d ≡ true
    → p ≡ true
    → q ≡ true
database_kept f b d e p q h i j = ground arith

select_kept : (f b d e x : Bool) → f || b && d && e || x ≡ false → d ≡ true → b ≡ true → e ≡ false
select_kept f b d e x h i j = ground arith

module _ (n : ℕ) where
  -- The database is the same, or absent from both.
  abbrev Same : Memory → Memory → Type 0
  Same s s' = lookup n s'.databases ≡ lookup n s.databases

  abbrev SameAfter : {R : Type 0} → Memory → Option (R × Memory) → Type 0
  SameAfter s none = Unit
  SameAfter s (some (r, s')) = Same s s'

  done-Same :
      (s : Memory) (A : Type 0) (o : Option (A × Memory))
      → ((a : A) (s' : Memory) → o ≡ some (a, s') → Frame s s')
      → n ≢ s.current_db
      → SameAfter s (done o)
  done-Same s A none f h = tt
  done-Same s A (some (a, s')) f h = (f a s' refl).others n h

  with_new-Same :
      (m : ℕ) (o : Option Database) (s : Memory)
      → n ≢ m
      → lookup n (with_new m o s).databases ≡ lookup n s.databases
  with_new-Same m none s h = lookup-insert m n (new_sharded_database s) s.databases ∙ other
    where
      other :
          (if m == n then some (new_sharded_database s) else lookup n s.databases)
          ≡ lookup n s.databases
      other = ground arith
  with_new-Same m (some d) s h = refl

  select_db-Same : (m : ℤ) (s : Memory) → pos n ≢ m → SameAfter s (selected (select_db m s))
  unfolding select_db
  select_db-Same (negsuc m) s h = refl
  select_db-Same (pos m) s h = elim (Bool-cases (ltb 15 m)) [
    | inl big ↦ rw big refl
    | inr small ↦ rw small (with_new-Same m (lookup m s.databases) s (λ e. h (ap pos e)))
  ]

  module _ (c : Client) (only : nonempty c.databases ≡ true)
      (outside : member_int (pos n) c.databases ≡ false) where
    apart : (m : ℤ) → member_int m c.databases ≡ true → pos n ≢ m
    apart m h e = cc

    execute_select-Same :
        (args : List Bytes)
        → blocked_select c args ≡ false
        → SameAfter c.storage (execute_select args c.storage)
    execute_select-Same [] h = refl
    execute_select-Same (x ∷ y ∷ args) h = refl
    execute_select-Same (x ∷ []) h = number (atoi x) h
      where
        number :
            (o : Option ℤ)
            → blocked_number c o ≡ false
            → SameAfter c.storage (select_number o c.storage)
        number none k = refl
        number (some m) k = select_db-Same m c.storage (apart m (ground arith))

    module _ (hash : Bytes → ℕ) (choose : Shard → ℕ) where
      execute_set-Same :
          (now : ℕ) (args : List Bytes)
          → n ≢ c.storage.current_db
          → SameAfter c.storage (execute_set hash choose now args c.storage)
      execute_set-Same now [] h = refl
      execute_set-Same now (x ∷ []) h = refl
      execute_set-Same now (key ∷ bytes ∷ rest) h =
          done-Same c.storage Unit (set_key hash choose now key bytes none c.storage)
            (λ a s'. set_key-IsLocal hash choose now key bytes none c.storage a s') h

      data_apart :
          (cmd : Command)
          → skipped c cmd ≡ false
          → is_data_command cmd.name ≡ true
          → n ≢ c.storage.current_db
      unfolding skipped
      data_apart cmd h d e =
          apart (pos c.storage.current_db) (database_kept _ _ _ _ _ _ h only d) (ap pos e)

      named_data :
          (name word : Bytes)
          → bytes_eq name word ≡ true
          → is_data_command word ≡ true
          → is_data_command name ≡ true
      named_data name word e d = rw (bytes_eq→eq name word e) d

      execute_command-Same :
          (now : ℕ) (cmd : Command)
          → skipped c cmd ≡ false
          → SameAfter c.storage (execute_command hash choose now cmd c.storage)
      unfolding execute_command skipped
      execute_command-Same now cmd h = elim (Bool-cases (bytes_eq cmd.name (codes "SET"))) [
        | inl is_set ↦ rw is_set (
            execute_set-Same now cmd.args (
              data_apart cmd h
                (named_data cmd.name (codes "SET") is_set (unfold is_data_command in refl))))
        | inr no_set ↦ elim (Bool-cases (bytes_eq cmd.name (codes "DEL"))) [
          | inl is_del ↦
              rw (no_set, is_del)
                (done-Same c.storage ℕ (del hash cmd.args c.storage)
                  (λ a s'. del-IsLocal hash cmd.args c.storage a s')
                  (data_apart cmd h
                    (named_data cmd.name (codes "DEL") is_del (unfold is_data_command in refl))))
          | inr no_del ↦ elim (Bool-cases (bytes_eq cmd.name (codes "SELECT"))) [
            | inl is_select ↦
                rw (no_set, no_del, is_select)
                  (execute_select-Same cmd.args (select_kept _ _ _ _ _ h only is_select))
            | inr no_select ↦ rw (no_set, no_del, no_select) refl
          ]
        ]
      ]

-- The client after a command or a stream of them: its filter is the same, and so is database `n`.
abbrev pub Keeps : ℕ → Client → Option Client → Type 0
Keeps n c none = Unit
Keeps n c (some c') =
    (c'.databases ≡ c.databases) × (lookup n c'.storage.databases ≡ lookup n c.storage.databases)

abbrev state_of : {R : Type 0} → Option (R × Client) → Option Client
state_of none = none
state_of (some (r, c)) = some c

executed-Keeps :
    (n : ℕ) (c : Client) (o : Outcome Memory)
    → SameAfter n c.storage o
    → Keeps n c (state_of (executed c o))
executed-Keeps n c none h = tt
executed-Keeps n c (some (err e, s)) h = (refl, h)
executed-Keeps n c (some (ok u, s)) h = unfold count_command in (refl, h)

module _ (hash : Bytes → ℕ) (choose : Shard → ℕ) (n : ℕ) where
  process_command-Keeps :
      (now : ℕ) (v : Value) (c : Client)
      → nonempty c.databases ≡ true
      → member_int (pos n) c.databases ≡ false
      → Keeps n c (state_of (process_command hash choose now v c))
  unfolding process_command
  process_command-Keeps now v c only outside = parsed (parse_command v)
    where
      parsed :
          (r : Result CommandError Command)
          → Keeps n c (state_of (process_parsed hash choose now c r))
      parsed (err e) = (refl, refl)
      parsed (ok cmd) = elim (Bool-cases (skipped c cmd)) [
        | inl skip ↦ rw skip (refl, refl)
        | inr run ↦ rw run (
            executed-Keeps n c (execute_command hash choose now cmd c.storage)
              (execute_command-Same n c only outside hash choose now cmd run))
      ]

  -- A replica whose database filter is not empty and does not hold `n` never changes database `n`, nor
  -- creates it, nor its filter, whatever commands the master sends, as far as it gets without a panic
  -- of the engine.
  pub process_stream-Keeps :
      (vs : List (ℕ × Value)) (c : Client)
      → nonempty c.databases ≡ true
      → member_int (pos n) c.databases ≡ false
      → Keeps n c (process_stream hash choose vs c)
  unfolding process_stream
  process_stream-Keeps [] c only outside = (refl, refl)
  process_stream-Keeps ((now, v) ∷ vs) c only outside =
      next (process_command hash choose now v c) (process_command-Keeps now v c only outside)
        (λ c'. process_stream-Keeps vs c')
    where
      after : (c' : Client) (o : Option Client) → Keeps n c (some c') → Keeps n c' o → Keeps n c o
      after c' none k l = tt
      after c' (some d) k l = (l.0 ∙ k.0, l.1 ∙ k.1)

      next :
          (o : Outcome Client)
          → Keeps n c (state_of o)
          → ((c' : Client)
              → nonempty c'.databases ≡ true
              → member_int (pos n) c'.databases ≡ false
              → Keeps n c' (process_stream hash choose vs c'))
          → Keeps n c (and_then hash choose (process_stream hash choose vs) o)
      next none k l = tt
      next (some (r, c')) k l =
          after c' (process_stream hash choose vs c') k
            (l c' (ap nonempty k.0 ∙ only) (ap (member_int (pos n)) k.0 ∙ outside))
