-- ===== src/Lua/Cache.antt =====
-- The cache of scripts: its two parts agree, and it stays within its bound.
pub mod Runs
use mathlib.Core.Path.{subst}
use redis_inmemory_replica.Base.{
  ℕ, suc, ◌+◌, ◌≤◌, ◌≡◌, refl, sym, ap, ◌∙◌, Bool, true, false, ◌||◌, inl, inr, List, [], ◌∷◌,
  Bytes, bytes_eq, bytes_eq→eq, bytes_eq_refl, bytes_eq_iff, Option, none, some, ℤ, pos, negsuc,
  length, Bool-cases, arith, if◌then◌else◌,
}
use redis_inmemory_replica.Storage.Map.{lookup, insert, bytes_key}
use redis_inmemory_replica.Storage.Map.Laws.{lookup-insert, lookup-delete}
use redis_inmemory_replica.Storage.Memory.{Shard, Memory}
use redis_inmemory_replica.Replication.Apply.{member}
use redis_inmemory_replica.Lua.{
  Interpreter, Engine, remove, move_to_front, back, exceeds, drop_script, evict, used, added,
  load_found, is_some, eval, with_engine, eval_found, eval_sha, load_script,
}
use redis_inmemory_replica.Lua.Recent.{
  NoRepeat, member-remove, remove-present, remove-NoRepeat, back-member,
}

abbrev pub Within : ℕ → ℤ → Type 0
Within n (pos max) = n ≤ max
Within n (negsuc max) = n ≡ 0

module _ (digest : Bytes → Bytes) where
  -- Both parts hold the same digests, each once, the scripts stand under theirs, and there are not more
  -- than allowed.
  pub record IsCache (e : Engine) : Type 0 where
    pub listed : (sha : Bytes) → member sha e.lru_list ≡ is_some (lookup sha e.scripts)
    pub digests : (sha script : Bytes) → lookup sha e.scripts ≡ some script → digest script ≡ sha
    pub distinct : NoRepeat e.lru_list
    pub within : Within (length e.lru_list) e.max_scripts

  used-IsCache :
      (sha found : Bytes) (e : Engine)
      → IsCache e
      → lookup sha e.scripts ≡ some found
      → IsCache (used sha e)
  used-IsCache sha found e c h =
      let there : member sha e.lru_list ≡ true = c.listed sha ∙ ap is_some h in
      record {
        listed = λ x.
            unfold member in
            elim (Bool-cases (bytes_eq sha x)) [
              | inl on ↦
                  let same : sha ≡ x = bytes_eq→eq sha x on in
                  rw on (sym (ap is_some (ap (λ u. lookup u e.scripts) (sym same) ∙ h)))
              | inr off ↦ rw off (
                  member-remove sha x e.lru_list
                  ∙ ap (λ b. if b then false else member x e.lru_list) off
                  ∙ c.listed x)
            ];
        digests = c.digests;
        distinct = (
          member-remove sha sha e.lru_list
              ∙ ap (λ b. if b then false else member sha e.lru_list) (bytes_eq_refl sha),
          remove-NoRepeat sha e.lru_list c.distinct,
        );
        within =
            bound e.max_scripts (omega (arith, remove-present sha e.lru_list c.distinct there))
              c.within;
      }
    where
      bound :
          (max : ℤ)
          → length (move_to_front sha e.lru_list) ≡ length e.lru_list
          → Within (length e.lru_list) max
          → Within (length (move_to_front sha e.lru_list)) max
      bound (pos max) n h = omega arith
      bound (negsuc max) n h = omega arith

  -- The same, but for the bound.
  record IsAgreed (e : Engine) : Type 0 where
    listed : (sha : Bytes) → member sha e.lru_list ≡ is_some (lookup sha e.scripts)
    digests : (sha script : Bytes) → lookup sha e.scripts ≡ some script → digest script ≡ sha
    distinct : NoRepeat e.lru_list

  added-IsAgreed :
      (script : Bytes) (e : Engine)
      → IsCache e
      → lookup (digest script) e.scripts ≡ none
      → IsAgreed (added (digest script) script e)
  added-IsAgreed script e c h =
      let sha = digest script in
      record {
        listed = λ x.
            unfold member in
            ap (λ b. bytes_eq sha x || b) (c.listed x)
            ∙ split (bytes_eq sha x) (lookup x e.scripts)
            ∙ sym (ap is_some (lookup-insert sha x script e.scripts));
        digests = λ x other l. elim (Bool-cases (bytes_eq sha x)) [
          | inl on ↦
              let same : sha ≡ x = bytes_eq→eq sha x on in
              let held : some script ≡ some other =
                sym (
                  lookup-insert sha x script e.scripts
                  ∙ ap (λ b. if b then some script else lookup x e.scripts) on)
                ∙ l in
              ap digest (sym (some_inj held)) ∙ same
          | inr off ↦ c.digests x other (
              sym (
                lookup-insert sha x script e.scripts
                ∙ ap (λ b. if b then some script else lookup x e.scripts) off)
              ∙ l)
        ];
        distinct = (c.listed sha ∙ ap is_some h, c.distinct);
      }
    where
      split :
          (b : Bool) (o : Option Bytes) → (b || is_some o) ≡ is_some (if b then some script else o)
      split true o = refl
      split false o = refl

      some_inj : {a b : Bytes} → some a ≡ some b → a ≡ b
      some_inj e = cc

  abbrev OneOver : ℕ → ℤ → Type 0
  OneOver n (pos max) = n ≤ suc max
  OneOver n (negsuc max) = n ≤ 1

  dropped-IsCache :
      (b : Bytes) (e : Engine)
      → IsAgreed e
      → member b e.lru_list ≡ true
      → OneOver (length e.lru_list) e.max_scripts
      → IsCache (drop_script e (some b))
  dropped-IsCache b e c there over = record {
    listed = λ x.
        member-remove b x e.lru_list
        ∙ ap (λ m. if bytes_eq b x then false else m) (c.listed x)
        ∙ split (bytes_eq b x) (lookup x e.scripts)
        ∙ sym (ap is_some (lookup-delete b x e.scripts));
    digests = λ x script l.
        c.digests x script
          (kept (bytes_eq b x) (lookup x e.scripts) script (sym (lookup-delete b x e.scripts) ∙ l));
    distinct = remove-NoRepeat b e.lru_list c.distinct;
    within = bound e.max_scripts (remove-present b e.lru_list c.distinct there) over;
  }
    where
      split :
          (t : Bool) (o : Option Bytes)
          → (if t then false else is_some o) ≡ is_some (if t then none else o)
      split true o = refl
      split false o = refl

      kept :
          (t : Bool) (o : Option Bytes) (script : Bytes)
          → (if t then none else o) ≡ some script
          → o ≡ some script
      kept true o script h = cc
      kept false o script h = h

      bound :
          (max : ℤ)
          → length (remove b e.lru_list) + 1 ≡ length e.lru_list
          → OneOver (length e.lru_list) max
          → Within (length (remove b e.lru_list)) max
      bound (pos max) n h = omega arith
      bound (negsuc max) n h = omega arith

  evict-IsCache :
      (e : Engine) → IsAgreed e → OneOver (length e.lru_list) e.max_scripts → IsCache (evict e)
  unfolding evict
  evict-IsCache e c over = elim (Bool-cases (exceeds (length e.lru_list) e.max_scripts)) [
    | inl on ↦ rw on (last e.lru_list refl)
    | inr off ↦ rw off (record {
      listed = c.listed;
      digests = c.digests;
      distinct = c.distinct;
      within = kept e.max_scripts off;
    })
  ]
    where
      kept : (max : ℤ) → exceeds (length e.lru_list) max ≡ false → Within (length e.lru_list) max
      kept (pos max) h = ground arith
      kept (negsuc max) h = cc

      empty : (max : ℤ) → Within 0 max
      empty (pos max) = omega arith
      empty (negsuc max) = refl

      last : (shas : List Bytes) → e.lru_list ≡ shas → IsCache (drop_script e (back shas))
      last [] h = record {
        listed = c.listed;
        digests = c.digests;
        distinct = c.distinct;
        within = subst (λ n. Within n e.max_scripts) (sym (ap length h)) (empty e.max_scripts);
      }
      last (s ∷ shas) h =
          let (b, found, there) = back-member s shas in
          rw found (dropped-IsCache b e c (ap (member b) h ∙ there) over)

  added_over :
      (script : Bytes) (e : Engine)
      → IsCache e
      → OneOver (length (digest script ∷ e.lru_list)) e.max_scripts
  added_over script e c = split e.max_scripts c.within
    where
      split : (max : ℤ) → Within (length e.lru_list) max → OneOver (suc (length e.lru_list)) max
      split (pos max) h = omega arith
      split (negsuc max) h = omega arith

  loaded-IsCache :
      (script : Bytes) (e : Engine) (o : Option Bytes)
      → lookup (digest script) e.scripts ≡ o
      → IsCache e
      → IsCache (load_found (digest script) script e o)
  loaded-IsCache script e (some found) h c = used-IsCache (digest script) found e c h
  loaded-IsCache script e none h c =
      evict-IsCache (added (digest script) script e) (added-IsAgreed script e c h)
        (added_over script e c)

  -- Whatever script is loaded into a sound cache, it stays sound: the list of digests and the map of the
  -- scripts hold the same digests, each once, every script stands under its own digest, and there are
  -- not more scripts than allowed, none where a negative number is.
  pub load_script-IsCache :
      (script : Bytes) (e : Engine) → IsCache e → IsCache (load_script digest script e).1
  unfolding load_script
  load_script-IsCache script e c = loaded-IsCache script e (lookup (digest script) e.scripts) refl c
