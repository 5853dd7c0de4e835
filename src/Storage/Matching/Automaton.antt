-- ===== src/Storage/Matching/Automaton.antt =====
-- The automaton against the meaning of a pattern.
use redis_inmemory_replica.Base.{
  ℕ, zero, suc, ◌+◌, ◌≤◌, ◌<◌, ◌≡◌, refl, sym, ap, ◌∙◌, Bool, true, false, ◌&&◌, ◌||◌, not, inl,
  inr, [], ◌∷◌, Bytes, codes, bytes_eq, bytes_eq→eq, Option, none, some, length, drop, get_elem?,
  ◌==◌, Bool-cases, arith, if◌then◌else◌,
}
use redis_inmemory_replica.Storage.Map.{lookup, insert}
use redis_inmemory_replica.Storage.Map.Laws.{lookup-insert}
use redis_inmemory_replica.Storage.Matching.{
  Memo, all_stars, remember, or_else, match_step, recalled, match_automaton,
  match_pattern_automaton,
}
use redis_inmemory_replica.Storage.Matching.Pair.{pair_key}

-- Some end of the string passes the test, the whole string and the empty one included.
abbrev pub any_end : (Bytes → Bool) → Bytes → Bool
any_end f [] = f []
any_end f (c ∷ s) = f (c ∷ s) || any_end f s

abbrev pub one_byte : ℕ → (Bytes → Bool) → Bytes → Bool
one_byte p f [] = false
one_byte p f (c ∷ s) = (p == b'?' || p == c) && f s

abbrev pub is_nil : Bytes → Bool
is_nil [] = true
is_nil (c ∷ s) = false

-- What a pattern means: a star stands for any bytes, `?` for one, any other byte for itself.
unfoldable pub glob : Bytes → Bytes → Bool
glob [] s = is_nil s
glob (p ∷ pattern) s =
    let rest : Bytes → Bool = glob pattern in
    if p == b'*' then any_end rest s else one_byte p rest s

drop-suc : (s : Bytes) (i c : ℕ) → get_elem? s i ≡ some c → drop i s ≡ c ∷ drop (suc i) s
drop-suc [] i c h = cc
drop-suc (x ∷ s) zero c h = cc
drop-suc (x ∷ s) (suc i) c h = drop-suc s i c h

drop-some : (s : Bytes) (i c : ℕ) → get_elem? s i ≡ some c → drop i s ≡ c ∷ drop (i + 1) s
drop-some s i c h =
    let e : suc i ≡ i + 1 = omega arith in drop-suc s i c h ∙ ap (λ k. c ∷ drop k s) e

drop-none : (s : Bytes) (i : ℕ) → get_elem? s i ≡ none → drop i s ≡ []
drop-none [] zero h = refl
drop-none [] (suc i) h = refl
drop-none (x ∷ s) zero h = cc
drop-none (x ∷ s) (suc i) h = drop-none s i h

none-length : (s : Bytes) (i : ℕ) → i ≤ length s → get_elem? s i ≡ none → i ≡ length s
none-length [] i h e = omega arith
none-length (x ∷ s) zero h e = cc
none-length (x ∷ s) (suc i) h e = ap suc (none-length s i (omega arith) e)

some-length : (s : Bytes) (i c : ℕ) → get_elem? s i ≡ some c → i < length s
some-length [] i c e = cc
some-length (x ∷ s) zero c e = omega arith
some-length (x ∷ s) (suc i) c e = omega (arith, some-length s i c e)

is_nil-drop : (s : Bytes) (i : ℕ) → i ≤ length s → is_nil (drop i s) ≡ (i == length s)
is_nil-drop [] zero h = refl
is_nil-drop [] (suc i) h = absurd (omega arith)
is_nil-drop (x ∷ s) zero h = ground arith
is_nil-drop (x ∷ s) (suc i) h = is_nil-drop s i (omega arith) ∙ ground arith

glob-nil : (pattern : Bytes) → glob pattern [] ≡ all_stars pattern
unfolding glob all_stars
glob-nil [] = refl
glob-nil (p ∷ pattern) = ground (arith, glob-nil pattern)

-- The three ways on from two bytes.
glob-star :
    (pattern s : Bytes) (p c : ℕ)
    → (p == b'*') ≡ true
    → glob (p ∷ pattern) (c ∷ s) ≡ glob pattern (c ∷ s) || glob (p ∷ pattern) s
unfolding glob
glob-star pattern s p c h = rw h refl

glob-byte :
    (pattern s : Bytes) (p c : ℕ)
    → (p == b'*') ≡ false
    → glob (p ∷ pattern) (c ∷ s) ≡ (p == b'?' || p == c) && glob pattern s
unfolding glob
glob-byte pattern s p c h = rw h refl

module _ (str pattern : Bytes) where
  abbrev answer : ℕ → ℕ → Bool
  answer i j = glob (drop j pattern) (drop i str)

  -- Every remembered answer is the right one.
  abbrev Sound : Memo → Type 0
  Sound memo = (i j : ℕ) (b : Bool) → lookup (i, j) memo ≡ some b → b ≡ answer i j

  abbrev Answers : ℕ → ℕ → Option (Bool × Memo) → Type 0
  Answers i j o = (memo : Memo) × (o ≡ some (answer i j, memo)) × Sound memo

  Sound-insert : (i j : ℕ) (memo : Memo) → Sound memo → Sound (insert (i, j) (answer i j) memo)
  Sound-insert i j memo h k l b e = elim (Bool-cases (i == k && j == l)) [
    | inl on ↦
        let p : i ≡ k = ground arith in
        let q : j ≡ l = ground arith in
        let r : some (answer i j) ≡ some b =
          sym (lookup-insert (i, j) (k, l) (answer i j) memo ∙ rw on refl) ∙ e in
        cc
    | inr off ↦ h k l b (sym (lookup-insert (i, j) (k, l) (answer i j) memo ∙ rw off refl) ∙ e)
  ]

  remember-Answers :
      (i j : ℕ) (o : Option (Bool × Memo)) → Answers i j o → Answers i j (remember (i, j) o)
  remember-Answers i j o (memo, e, h) =
      (insert (i, j) (answer i j) memo, rw e refl, Sound-insert i j memo h)

  -- What a call on less fuel does.
  abbrev Runs : ℕ → Type 0
  Runs f =
      (i j : ℕ) (memo : Memo)
      → i ≤ length str
      → j ≤ length pattern
      → length str + length pattern < f + i + j
      → Sound memo
      → Answers i j (match_automaton str pattern f i j memo)

  retarget :
      (i j k l : ℕ) (o : Option (Bool × Memo))
      → answer k l ≡ answer i j
      → Answers k l o
      → Answers i j o
  retarget i j k l o p (memo, e, h) = (memo, rw (sym p) e, h)

  end_of_pattern :
      (f : ℕ) (i j : ℕ) (o : Option ℕ) (memo : Memo)
      → i ≤ length str
      → get_elem? pattern j ≡ none
      → Sound memo
      → Answers i j (match_step str pattern (match_automaton str pattern f) i j o none memo)
  unfolding glob
  end_of_pattern f i j o memo hi e h =
      (memo, rw (drop-none pattern j e, is_nil-drop str i hi) refl, h)

  star_step :
      (f i j : ℕ) (memo : Memo) (c p : ℕ)
      → Runs f
      → get_elem? str i ≡ some c
      → get_elem? pattern j ≡ some p
      → (p == b'*') ≡ true
      → length str + length pattern < suc f + i + j
      → Sound memo
      → Answers i j (
          or_else
            (match_automaton str pattern f (i + 1) j)
            (match_automaton str pattern f i (j + 1) memo))
  star_step f i j memo c p run ei ej star big h =
      first (run i (j + 1) memo (omega (arith, li)) (omega (arith, lj)) (omega arith) h)
    where
      li : i < length str
      li = some-length str i c ei

      lj : j < length pattern
      lj = some-length pattern j p ej

      whole : answer i j ≡ answer i (j + 1) || answer (i + 1) j
      whole =
          rw (drop-some pattern j p ej, drop-some str i c ei)
            (glob-star (drop (j + 1) pattern) (drop (i + 1) str) p c star)

      first :
          Answers i (j + 1) (match_automaton str pattern f i (j + 1) memo)
          → Answers i j (
              or_else
                (match_automaton str pattern f (i + 1) j)
                (match_automaton str pattern f i (j + 1) memo))
      first (m, e, k) = elim (Bool-cases (answer i (j + 1))) [
        | inl on ↦ (m, rw (e, on, whole, on) refl, k)
        | inr off ↦
            let (m', e', k') =
              run (i + 1) j m (omega (arith, li)) (omega (arith, lj)) (omega arith) k in
            (m', rw (e, off) (e' ∙ ap (λ b. some (b, m')) (sym (whole ∙ rw off refl))), k')
      ]

  byte_step :
      (f i j : ℕ) (memo : Memo) (c p : ℕ)
      → Runs f
      → get_elem? str i ≡ some c
      → get_elem? pattern j ≡ some p
      → (p == b'*') ≡ false
      → length str + length pattern < suc f + i + j
      → Sound memo
      → Answers i j
          (match_step str pattern (match_automaton str pattern f) i j (some c) (some p) memo)
  byte_step f i j memo c p run ei ej byte big h = elim (Bool-cases (p == b'?')) [
    | inl any ↦ rw (byte, any) (go (ground arith))
    | inr plain ↦ elim (Bool-cases (p == c)) [
      | inl same ↦ rw (byte, plain, same) (go (ground arith))
      | inr other ↦ (memo, rw (byte, plain, other, whole, plain, other) refl, h)
    ]
  ]
    where
      whole : answer i j ≡ (p == b'?' || p == c) && answer (i + 1) (j + 1)
      whole =
          rw (drop-some pattern j p ej, drop-some str i c ei)
            (glob-byte (drop (j + 1) pattern) (drop (i + 1) str) p c byte)

      go :
          (p == b'?' || p == c) ≡ true
          → Answers i j (match_automaton str pattern f (i + 1) (j + 1) memo)
      go on = retarget i j (i + 1) (j + 1) _ (sym (whole ∙ rw on refl)) (
          run (i + 1) (j + 1) memo (omega (arith, some-length str i c ei))
            (omega (arith, some-length pattern j p ej)) (omega arith) h)

  step_lem :
      (f i j : ℕ) (memo : Memo) (o q : Option ℕ)
      → Runs f
      → get_elem? str i ≡ o
      → get_elem? pattern j ≡ q
      → i ≤ length str
      → length str + length pattern < suc f + i + j
      → Sound memo
      → Answers i j (match_step str pattern (match_automaton str pattern f) i j o q memo)
  step_lem f i j memo o none run ei ej hi big h = end_of_pattern f i j o memo hi ej h
  step_lem f i j memo none (some p) run ei ej hi big h =
      (memo, rw (drop-none str i ei, glob-nil (drop j pattern)) refl, h)
  step_lem f i j memo (some c) (some p) run ei ej hi big h = elim (Bool-cases (p == b'*')) [
    | inl star ↦ rw star (star_step f i j memo c p run ei ej star big h)
    | inr byte ↦ byte_step f i j memo c p run ei ej byte big h
  ]

  match_automaton-Runs : (f : ℕ) → Runs f
  unfolding match_automaton
  match_automaton-Runs zero i j memo hi hj big h = absurd (omega arith)
  match_automaton-Runs (suc f) i j memo hi hj big h =
      recall (match_automaton-Runs f) (lookup (i, j) memo) refl
    where
      recall :
          Runs f
          → (o : Option Bool) → lookup (i, j) memo ≡ o
          → Answers i j (
              recalled str pattern
                (remember
                  (i, j)
                  (match_step str pattern
                    (match_automaton str pattern f)
                    i
                    j
                    (get_elem? str i)
                    (get_elem? pattern j)
                    memo))
                o
                memo)
      recall run none e =
          remember-Answers i j _
            (step_lem f i j memo (get_elem? str i) (get_elem? pattern j) run refl refl hi big h)
      recall run (some b) e = (memo, ap (λ x. some (x, memo)) (h i j b e), h)

glob-empty_pattern : (s : Bytes) → glob [] s ≡ bytes_eq s []
unfolding glob bytes_eq
glob-empty_pattern [] = refl
glob-empty_pattern (c ∷ s) = refl

-- The automaton always has fuel enough. A key matches as the pattern says, where a star stands for
-- any bytes, none included, `?` for one byte, and any other byte for itself; only the pattern of one
-- star does not match the empty key.
pub match_pattern_automaton-glob :
    (str pattern : Bytes)
    → match_pattern_automaton str pattern
      ≡ some (if bytes_eq pattern (codes "*") then not (bytes_eq str []) else glob pattern str)
unfolding match_pattern_automaton
match_pattern_automaton-glob str pattern = elim (Bool-cases (bytes_eq pattern [])) [
  | inl on ↦
      rw (on, bytes_eq→eq pattern [] on)
        (unfold bytes_eq in ap (λ b. some b) (sym (glob-empty_pattern str)))
  | inr off ↦ elim (Bool-cases (bytes_eq pattern (codes "*"))) [
    | inl star ↦ rw (off, star) refl
    | inr more ↦
        let (memo, e, h) =
          match_automaton-Runs str pattern (length str + length pattern + 1) 0 0 [] (omega arith)
            (omega arith) (omega arith) (λ i j b k. unfold lookup in cc) in
        rw (off, more, e) refl
  ]
]
