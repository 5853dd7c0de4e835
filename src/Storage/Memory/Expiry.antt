-- ===== src/Storage/Memory/Expiry.antt =====
-- `Expire`, `TTL`, `PTTL` and `Type` against the abstract view.
use mathlib.Core.Path.{subst}
use redis_inmemory_replica.Base.{
  bytes_eq→eq, ℕ, ◌≡◌, refl, sym, ap, ◌∙◌, Bool, true, false, ◌&&◌, inl, inr, Bytes, Option, none,
  some, arith, Bool-cases, bytes_eq, ◌==◌, if◌then◌else◌,
}
use redis_inmemory_replica.Storage.Map.{lookup, insert, bytes_key}
use redis_inmemory_replica.Storage.Value.{Value, ValueType, string, is_expired}
use redis_inmemory_replica.Storage.Memory.{Memory, key_hash}
use redis_inmemory_replica.Storage.Memory.Access.{
  expire_value, expire, Ttl, no_key, no_expiry, until, ttl_at, ttl_of, ttl, type_of, key_type,
}
use redis_inmemory_replica.Storage.Memory.Methods.{live}
use redis_inmemory_replica.Storage.Memory.WellFormed.{IsWellFormed, view, Opened, open_shard-Opened}
use redis_inmemory_replica.Storage.Memory.Update.{Writes, insert-Writes, put_at, put-ok}

-- The value with a new expiry.
abbrev pub until_time : ℕ → Value → Value
until_time time v = record v { expiry = some time }

-- What `Expire` makes of a value.
abbrev pub expired_at : ℕ → ℕ → Option Value → Option Value
expired_at now time none = none
expired_at now time (some v) = if is_expired now v then some v else some (until_time time v)

abbrev pub is_live : ℕ → Option Value → Bool
is_live now none = false
is_live now (some v) = if is_expired now v then false else true

-- No expiry, or the time of the expiry and that of the clock.
abbrev remaining : Option ℕ → ℕ → Ttl
remaining none now = no_expiry
remaining (some t) now = until t now

-- The answer of `TTL` for what a client can see of a value: how long it has from `later` on.
abbrev pub time_left : ℕ → Option Value → Ttl
time_left later none = no_key
time_left later (some v) = remaining v.expiry later

-- The answer of `Type` for what a client can see of a value.
abbrev pub seen_type : Option Value → ValueType
seen_type none = string
seen_type (some v) = v.kind

module _ (hash : Bytes → ℕ) where
  module _ (s : Memory) (key : Bytes) (w : IsWellFormed hash s) (o : Opened hash s key) where
    unchanged : (r : Option Value) → r ≡ view hash s s.current_db key → Writes hash s s key r
    unchanged r e = record {
      well_formed = w;
      same_db = refl;
      same_mask = refl;
      views = λ n j. elim (Bool-cases ((s.current_db == n) && bytes_eq key j)) [
        | inl hit ↦ rw hit (same n j hit)
        | inr miss ↦ rw miss
      ];
    }
      where
        same :
            (n : ℕ) (j : Bytes) → (s.current_db == n) && bytes_eq key j ≡ true → view hash s n j ≡ r
        same n j hit = ground (arith, bytes_eq→eq key j, e)

    expire_value-ok :
        (now time : ℕ) (v : Option Value)
        → lookup key o.sh ≡ v
        → (s' : Memory) × (expire_value hash now time key (key_hash hash s key) o.sh v s
            ≡ some (is_live now v, s'))
          × Writes hash s s' key (expired_at now time v)
    expire_value-ok now time none e = (s, refl, unchanged none (sym e ∙ o.shows))
    expire_value-ok now time (some v) e = elim (Bool-cases (is_expired now v)) [
      | inl x ↦ (s, rw x, rw x (unchanged (some v) (sym e ∙ o.shows)))
      | inr x ↦ (
        put_at hash s key w o (insert key (until_time time v) o.sh),
        rw (x, put-ok hash s key w o (insert key (until_time time v) o.sh)),
        rw x (insert-Writes hash s key w o (until_time time v)),
      )
    ]

  -- On a well-formed engine `Expire` succeeds exactly on a live key; it then sets the expiry of its value and changes nothing
  -- else, and otherwise it changes nothing.
  pub expire-Writes :
      (s : Memory) (now time : ℕ) (key : Bytes)
      → IsWellFormed hash s
      → (s' : Memory) × (expire hash now key time s
          ≡ some (is_live now (view hash s s.current_db key), s'))
        × Writes hash s s' key (expired_at now time (view hash s s.current_db key))
  unfolding expire
  expire-Writes s now time key w =
      let o = open_shard-Opened hash s key w in
      let (s', run, u) = expire_value-ok s key w o now time (lookup key o.sh) refl in
      (
        s',
        rw o.opens (run ∙ ap (λ v. some (is_live now v, s')) o.shows),
        subst (λ v. Writes hash s s' key (expired_at now time v)) o.shows u,
      )

  ttl_of-live :
      (now later : ℕ) (o : Option Value) → ttl_of hash now later o ≡ time_left later (live now o)
  ttl_of-live now later none = refl
  ttl_of-live now later (some v) = elim (Bool-cases (is_expired now v)) [
    | inl on ↦ rw on
    | inr off ↦ rw off (ttl_at-remaining later v.expiry)
  ]
    where
      ttl_at-remaining : (t : ℕ) (expiry : Option ℕ) → ttl_at hash t expiry ≡ remaining expiry t
      ttl_at-remaining t none = refl
      ttl_at-remaining t (some x) = refl

  type_of-live : (now : ℕ) (o : Option Value) → type_of hash now o ≡ seen_type (live now o)
  type_of-live now none = refl
  type_of-live now (some v) = elim (Bool-cases (is_expired now v)) [
    | inl on ↦ rw on
    | inr off ↦ rw off
  ]

  -- On a well-formed engine `TTL` changes nothing and answers from what a client can see of the key
  -- at the first reading of the clock: no key where it sees nothing, no expiry for a value without
  -- one, and otherwise the time from the second reading to the expiry.
  pub ttl-view :
      (s : Memory) (now later : ℕ) (key : Bytes)
      → IsWellFormed hash s
      → ttl hash now later key s
        ≡ some (time_left later (live now (view hash s s.current_db key)), s)
  unfolding ttl
  ttl-view s now later key w =
      let o = open_shard-Opened hash s key w in
      rw o.opens (
        ap (λ v. some (ttl_of hash now later v, s)) o.shows
        ∙ ap (λ r. some (r, s)) (ttl_of-live now later (view hash s s.current_db key)))

  -- On a well-formed engine `Type` changes nothing and answers the type of what a client can see of
  -- the key, and the type of a string where it sees nothing.
  pub key_type-view :
      (s : Memory) (now : ℕ) (key : Bytes)
      → IsWellFormed hash s
      → key_type hash now key s ≡ some (seen_type (live now (view hash s s.current_db key)), s)
  unfolding key_type
  key_type-view s now key w =
      let o = open_shard-Opened hash s key w in
      rw o.opens (
        ap (λ v. some (type_of hash now v, s)) o.shows
        ∙ ap (λ r. some (r, s)) (type_of-live now (view hash s s.current_db key)))
