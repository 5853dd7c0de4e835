-- ===== src/Storage/Memory/Methods.antt =====
-- The methods on single keys against the abstract view.
use redis_inmemory_replica.Base.{
  ℕ, ◌≤◌, ◌≡◌, refl, sym, ap, ◌∙◌, Bool, true, false, ◌&&◌, inl, inr, ◌++◌, Bytes, Option, none,
  some, map, arith, Bool-cases, bytes_eq, bytes_eq→eq, ◌==◌, ==_refl, if◌then◌else◌,
}
use redis_inmemory_replica.Storage.Map.{lookup, insert, delete, nat_key, bytes_key}
use redis_inmemory_replica.Storage.Value.{Value, is_expired, passed}
use redis_inmemory_replica.Storage.Memory.{
  Memory, key_set, key_expired, key_accessed, notify, key_hash,
}
use redis_inmemory_replica.Storage.Memory.Access.{
  string_bytes, delete_expired_key, get_value, get, new_value, store,
}
use redis_inmemory_replica.Storage.Memory.WellFormed.{
  IsWellFormed, view, Opened, open_shard-Opened, notify-IsWellFormed,
}
use redis_inmemory_replica.Storage.Memory.Update.{
  Writes, insert-Writes, delete-Writes, put_at, put-ok, told, told-Writes,
}

-- What a client can see of a value at a time.
abbrev pub live : ℕ → Option Value → Option Value
live now none = none
live now (some v) = if is_expired now v then none else some v

abbrev pub reply : Option Value → Option Bytes
reply none = none
reply (some v) = string_bytes v.kind v.payload

module _ (hash : Bytes → ℕ) where
  -- `Set` before the memory limit, on a well-formed engine: the key holds the new value, no other key
  -- of any database changes, every observer is told, and the state stays well formed.
  pub store-Writes :
      (s : Memory) (now : ℕ) (key bytes : Bytes) (expiry : Option ℕ)
      → IsWellFormed hash s
      → (s' : Memory) × (store hash now key bytes expiry s ≡ some (tt, s'))
        × Writes hash s s' key (some (new_value hash now bytes expiry))
        × (s'.notified ≡ s.notified ++ map (λ o. (o, key_set key bytes)) s.observers)
  unfolding store notify
  store-Writes s now key bytes expiry w =
      let o = open_shard-Opened hash s key w in
      let v = new_value hash now bytes expiry in
      let t = put_at hash s key w o (insert key v o.sh) in
      (
        told hash t (key_set key bytes),
        rw (o.opens, put-ok hash s key w o (insert key v o.sh)),
        told-Writes hash s t key (some v) (key_set key bytes) (insert-Writes hash s key w o v),
        refl,
      )

pub is_expired_mono :
    (now later : ℕ) (v : Value) → now ≤ later → is_expired now v ≡ true → is_expired later v ≡ true
unfolding is_expired
is_expired_mono now later v h e = ground arith

live_expired : (now t : ℕ) (v : Value) → now ≤ t → is_expired now v ≡ true → live t (some v) ≡ none
live_expired now t v h e = rw (is_expired_mono now t v h e)

live_none : (now t : ℕ) (o : Option Value) → now ≤ t → live now o ≡ none → live t o ≡ none
live_none now t none h e = refl
live_none now t (some v) h e = ground (arith, is_expired_mono now t v h)

module _ (hash : Bytes → ℕ) where
  -- `s'` shows every client what `s` shows, at every time from `now` on.
  pub record SameLive (now : ℕ) (s s' : Memory) : Type 0 where
    pub well_formed : IsWellFormed hash s'
    pub lives :
        (n : ℕ) (j : Bytes) (t : ℕ) → now ≤ t → live t (view hash s' n j) ≡ live t (view hash s n j)

  -- Writing a key with what no client can tell from the old value.
  Writes-SameLive :
      (now : ℕ) (s s' : Memory) (key : Bytes) (r : Option Value)
      → Writes hash s s' key r
      → ((t : ℕ) → now ≤ t → live t r ≡ live t (view hash s s.current_db key))
      → SameLive now s s'
  Writes-SameLive now s s' key r u same = record {
    well_formed = u.well_formed;
    lives = λ n j t h. elim (Bool-cases ((s.current_db == n) && bytes_eq key j)) [
      | inl hit ↦
          let p : s.current_db ≡ n = ground arith in
          let q : key ≡ j = bytes_eq→eq key j (ground arith) in
          rw (u.views n j, hit, same t h, p, q)
      | inr miss ↦ rw (u.views n j, miss)
    ];
  }

  module _ (s : Memory) (key : Bytes) (w : IsWellFormed hash s) (o : Opened hash s key) where
    gone : Memory
    gone = told hash (put_at hash s key w o (delete key o.sh)) (key_expired key)

    gone-Writes : Writes hash s gone key none
    unfolding gone
    gone-Writes = told-Writes hash s _ key none (key_expired key) (delete-Writes hash s key w o)

    delete_expired_key-gone :
        (later : ℕ) (v : Value)
        → lookup key o.sh ≡ some v
        → is_expired later v ≡ true
        → delete_expired_key hash later key s ≡ some (tt, gone)
    unfolding delete_expired_key gone notify
    delete_expired_key-gone later v e x =
        rw (o.opens, e, x, put-ok hash s key w o (delete key o.sh))

    get_value-ok :
        (now later : ℕ)
        → now ≤ later
        → (v : Option Value) → lookup key o.sh ≡ v
        → (s' : Memory) × (get_value hash now later key v s ≡ some (reply (live now v), s'))
          × SameLive now s s'
    get_value-ok now later h none e = (s, refl, record { well_formed = w; lives = λ n j t k. refl })
    get_value-ok now later h (some v) e = elim (Bool-cases (is_expired now v)) [
      | inl x ↦ (
        gone,
        rw (x, delete_expired_key-gone later v e (is_expired_mono now later v h x)),
        Writes-SameLive now s gone key none gone-Writes
            (λ t k. sym (ap (live t) (sym (o.shows) ∙ e) ∙ live_expired now t v k x)),
      )
      | inr x ↦ (told hash s (key_accessed key), rw x (unfold notify in refl), same_notified)
    ]
      where
        same_notified : SameLive now s (told hash s (key_accessed key))
        same_notified = record {
          well_formed = notify-IsWellFormed hash s _ w;
          lives = λ n j t k. unfold view key_hash in refl;
        }

  -- On a well-formed engine `Get` returns the bytes of the value that is live at its first reading of the clock, and nothing
  -- if there is none. It may remove the key if it has expired, which no client can see from that time
  -- on, in any database; the state stays well formed.
  pub get-refines :
      (s : Memory) (now later : ℕ) (key : Bytes)
      → IsWellFormed hash s
      → now ≤ later
      → (s' : Memory) × (get hash now later key s
          ≡ some (reply (live now (view hash s s.current_db key)), s'))
        × SameLive now s s'
  unfolding get
  get-refines s now later key w h =
      let o = open_shard-Opened hash s key w in
      let (s', run, same) = get_value-ok s key w o now later h (lookup key o.sh) refl in
      (s', rw (o.opens, run, o.shows), same)

  shown :
      (s s' : Memory) (now at : ℕ) (key bytes : Bytes) (expiry : Option ℕ)
      → Writes hash s s' key (some (new_value hash now bytes expiry))
      → (j : Bytes)
      → reply (live at (view hash s' s'.current_db j)) ≡ (
          if bytes_eq key j
          then (if passed at expiry then none else some bytes)
          else reply (live at (view hash s s.current_db j)))
  unfolding is_expired
  shown s s' now at key bytes expiry u j =
      let e : view hash s' s'.current_db j ≡ (
          if bytes_eq key j
          then some (new_value hash now bytes expiry)
          else view hash s s.current_db j) =
        ap (λ n. view hash s' n j) u.same_db
        ∙ u.views s.current_db j
        ∙ ap
            (λ b.
              if b && bytes_eq key j
              then some (new_value hash now bytes expiry)
              else view hash s s.current_db j)
            (==_refl s.current_db) in
      ap (λ v. reply (live at v)) e ∙ split (bytes_eq key j)
    where
      split :
          (b : Bool)
          → reply (
              live at
                (if b then some (new_value hash now bytes expiry) else view hash s s.current_db j))
            ≡ (if b
                then (if passed at expiry then none else some bytes)
                else reply (live at (view hash s s.current_db j)))
      split true = ground arith
      split false = refl

  -- On a well-formed engine, after `Set` up to the memory limit, `Get` of the key returns the bytes that were set until the expiry has passed, and
  -- nothing from then on; `Get` of another key returns what it would have returned before.
  pub get-store :
      (s : Memory) (now at later : ℕ) (key bytes : Bytes) (expiry : Option ℕ)
      → IsWellFormed hash s
      → at ≤ later
      → (s' : Memory) × (store hash now key bytes expiry s ≡ some (tt, s'))
        × ((j : Bytes)
            → (s'' : Memory) × (get hash at later j s'
                ≡ some (
                  if bytes_eq key j
                      then (if passed at expiry then none else some bytes)
                      else reply (live at (view hash s s.current_db j)),
                  s'',
                )))
  get-store s now at later key bytes expiry w h =
      let (s', run, u, told_all) = store-Writes hash s now key bytes expiry w in
      (
        s',
        run,
        λ j.
            let (s'', back, same) = get-refines s' at later j u.well_formed h in
            (s'', back ∙ ap (λ b. some (b, s'')) (shown s s' now at key bytes expiry u j)),
      )
