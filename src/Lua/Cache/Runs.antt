-- ===== src/Lua/Cache/Runs.antt =====
-- A script that was loaded is run by its digest.
use redis_inmemory_replica.Base.{
  ℕ, suc, ◌≡◌, refl, ap, ◌∙◌, true, false, inl, inr, List, [], ◌∷◌, Bytes, bytes_eq, bytes_eq→eq,
  bytes_eq_refl, Option, none, some, pos, length, Bool-cases, arith, if◌then◌else◌,
}
use redis_inmemory_replica.Storage.Map.{lookup, insert, bytes_key}
use redis_inmemory_replica.Storage.Map.Laws.{lookup-insert, lookup-delete}
use redis_inmemory_replica.Storage.Memory.{Shard, Memory}
use redis_inmemory_replica.Replication.Apply.{member}
use redis_inmemory_replica.Lua.{
  Interpreter, Engine, back, exceeds, drop_script, evict, added, load_found, is_some, eval,
  with_engine, eval_found, eval_sha, load_script,
}
use redis_inmemory_replica.Lua.Recent.{back-member}
use redis_inmemory_replica.Lua.Cache.{IsCache}

module _ (digest : Bytes → Bytes) where
  -- No other script in the cache has the digest of this one.
  abbrev pub NoCollision : Bytes → Engine → Type 0
  NoCollision script e =
      (other : Bytes) → lookup (digest script) e.scripts ≡ some other → other ≡ script

  loaded-lookup :
      (script : Bytes) (e : Engine) (max : ℕ) (o : Option Bytes)
      → e.max_scripts ≡ pos (suc max)
      → lookup (digest script) e.scripts ≡ o
      → IsCache digest e
      → NoCollision script e
      → lookup (digest script) (load_found (digest script) script e o).scripts ≡ some script
  loaded-lookup script e max (some found) m h c q = h ∙ ap (λ u. some u) (q found h)
  loaded-lookup script e max none m h c q =
      elim (Bool-cases (exceeds (suc (length e.lru_list)) e.max_scripts)) [
        | inl on ↦ unfold evict in rw on (last e.lru_list refl on)
        | inr off ↦ unfold evict in rw off inserted
      ]
    where
      inserted : lookup (digest script) (insert (digest script) script e.scripts) ≡ some script
      inserted =
          lookup-insert (digest script) (digest script) script e.scripts
          ∙ ap (λ b. if b then some script else lookup (digest script) e.scripts)
              (bytes_eq_refl (digest script))

      absent : (b : Bytes) → member b e.lru_list ≡ true → bytes_eq b (digest script) ≡ false
      absent b there = elim (Bool-cases (bytes_eq b (digest script))) [
        | inl on ↦
            let same : b ≡ digest script = bytes_eq→eq b (digest script) on in
            let gone : member b e.lru_list ≡ false =
              ap (λ u. member u e.lru_list) same ∙ c.listed (digest script) ∙ ap is_some h in
            cc
        | inr off ↦ off
      ]

      last :
          (shas : List Bytes)
          → e.lru_list ≡ shas
          → exceeds (suc (length e.lru_list)) e.max_scripts ≡ true
          → lookup
              (digest script)
              (drop_script (added (digest script) script e) (back (digest script ∷ shas))).scripts
            ≡ some script
      last [] f on =
          let small : exceeds (suc (length e.lru_list)) e.max_scripts ≡ false =
            ap (λ n. exceeds (suc n) e.max_scripts) (ap length f)
            ∙ ap (exceeds 1) m
            ∙ ground arith in
          cc
      last (s ∷ shas) f on =
          let (b, found, there) = back-member s shas in
          rw found (
            lookup-delete b (digest script) (insert (digest script) script e.scripts)
            ∙ ap
                (λ t.
                  if t
                  then none
                  else lookup (digest script) (insert (digest script) script e.scripts))
                (absent b (ap (member b) f ∙ there))
            ∙ inserted)

  -- A script that was loaded into a sound cache, which may hold a script at least, is run by the digest
  -- that loading returned, as `Eval` runs it, where no other script in the cache has that digest.
  pub eval_sha-load_script :
      (hash : Bytes → ℕ) (choose : Shard → ℕ) (clock : ℕ → ℕ) (interpret : Interpreter)
      (script : Bytes) (keys args : List Bytes) (e : Engine) (max : ℕ) (s : Memory)
      → IsCache digest e
      → e.max_scripts ≡ pos (suc max)
      → NoCollision script e
      → (e' : Engine) × (eval_sha hash choose clock interpret
            (load_script digest script e).0
            keys
            args
            (load_script digest script e).1
            s
          ≡ with_engine e' (eval hash choose clock interpret script keys args s))
  unfolding eval_sha load_script
  eval_sha-load_script hash choose clock interpret script keys args e max s c m q =
      let l = load_found (digest script) script e (lookup (digest script) e.scripts) in
      (
        _,
        ap (λ o. eval_found hash choose clock interpret (digest script) keys args l o s)
            (loaded-lookup script e max (lookup (digest script) e.scripts) m refl c q),
      )
