-- ===== src/Storage/Matching.antt =====
-- storage/matching.go: the simple matcher and the automaton. The other two strategies call `regexp`
-- and `filepath.Match`, which are parameters of the dispatcher.
pub mod Pair
pub mod Automaton
use redis_inmemory_replica.Base.{
  ℕ, zero, suc, ◌+◌, ◌-◌, Bool, true, false, ◌&&◌, not, List, [], ◌∷◌, Bytes, codes, bytes_eq,
  Option, none, some, length, take, drop, get_elem?, leb, ◌==◌, if◌then◌else◌,
}
use redis_inmemory_replica.Storage.Map.{Key, Map, lookup, insert}
use redis_inmemory_replica.Storage.Matching.Pair.{pair_key}

pub data MatchingStrategy : Type 0 where
  strategy_simple strategy_regex strategy_automaton strategy_glob : MatchingStrategy

-- `strings.HasPrefix` and `strings.HasSuffix`
unfoldable pub has_prefix : Bytes → Bytes → Bool
unfolding bytes_eq
has_prefix s prefix = leb (length prefix) (length s) && bytes_eq (take (length prefix) s) prefix

unfoldable pub has_suffix : Bytes → Bytes → Bool
unfolding bytes_eq
has_suffix s suffix =
    leb (length suffix) (length s) && bytes_eq (drop (length s - length suffix) s) suffix

-- `strings.IndexByte` and `strings.LastIndexByte`; `none` is -1.
abbrev pub after_first : Option ℕ → Option ℕ
after_first none = none
after_first (some i) = some (suc i)

unfoldable pub index_byte : Bytes → ℕ → Option ℕ
index_byte [] c = none
index_byte (x ∷ s) c = let rest = after_first (index_byte s c) in if x == c then some 0 else rest

abbrev pub or_here : Bool → Option ℕ → Option ℕ
or_here here (some i) = some (suc i)
or_here true none = some 0
or_here false none = none

unfoldable pub last_index_byte : Bytes → ℕ → Option ℕ
last_index_byte [] c = none
last_index_byte (x ∷ s) c = or_here (x == c) (last_index_byte s c)

abbrev pub is_byte : Option ℕ → ℕ → Bool
is_byte none c = false
is_byte (some x) c = x == c

abbrev pub same_index : Option ℕ → Option ℕ → Bool
same_index (some i) (some j) = i == j
same_index _ _ = false

-- The last case of `matchPatternSimple`, by the index of the first star.
abbrev pub match_middle : Bytes → Bytes → Option ℕ → Bool
match_middle key pattern none = false
match_middle key pattern (some i) =
    if not (same_index (last_index_byte pattern b'*') (some i))
    then false
    else has_prefix key (take i pattern) && has_suffix key (drop (i + 1) pattern)

-- `matchPatternSimple`
unfoldable pub match_pattern_simple : Bytes → Bytes → Bool
unfolding bytes_eq has_prefix has_suffix index_byte last_index_byte
match_pattern_simple key pattern =
    if bytes_eq pattern []
    then bytes_eq key []
    else if bytes_eq pattern (codes "*")
    then not (bytes_eq key [])
    else if bytes_eq key pattern
    then true
    else if is_byte (get_elem? pattern (length pattern - 1)) b'*'
    then has_prefix key (take (length pattern - 1) pattern)
    else if is_byte (get_elem? pattern 0) b'*'
    then has_suffix key (drop 1 pattern)
    else match_middle key pattern (index_byte pattern b'*')

abbrev pub Memo : Type 0
Memo = Map (ℕ × ℕ) Bool

-- The loop over the rest of the pattern.
unfoldable pub all_stars : Bytes → Bool
all_stars [] = true
all_stars (c ∷ pattern) = c == b'*' && all_stars pattern

-- `memo[key] = result; return result`
abbrev pub remember : ℕ × ℕ → Option (Bool × Memo) → Option (Bool × Memo)
remember key none = none
remember key (some (b, memo)) = some (b, insert key b memo)

abbrev pub or_else : (Memo → Option (Bool × Memo)) → Option (Bool × Memo) → Option (Bool × Memo)
or_else f none = none
or_else f (some (true, memo)) = some (true, memo)
or_else f (some (false, memo)) = f memo

-- The first case is the end of the pattern, the second the end of the string.
module _ (str pattern : Bytes) where
  abbrev pub match_step :
      (ℕ → ℕ → Memo → Option (Bool × Memo))
      → ℕ
      → ℕ
      → Option ℕ
      → Option ℕ
      → Memo
      → Option (Bool × Memo)
  match_step again i j s none memo = some (i == length str, memo)
  match_step again i j none (some p) memo = some (all_stars (drop j pattern), memo)
  match_step again i j (some c) (some p) memo =
      if p == b'*'
      then or_else (again (i + 1) j) (again i (j + 1) memo)
      else if p == b'?'
      then again (i + 1) (j + 1) memo
      else if p == c
      then again (i + 1) (j + 1) memo
      else some (false, memo)

  abbrev pub recalled : Option (Bool × Memo) → Option Bool → Memo → Option (Bool × Memo)
  recalled computed none memo = computed
  recalled computed (some b) memo = some (b, memo)

  -- `matchAutomaton`; `none` when the fuel is out.
  unfoldable pub match_automaton : ℕ → ℕ → ℕ → Memo → Option (Bool × Memo)
  unfolding lookup insert all_stars
  match_automaton zero i j memo = none
  match_automaton (suc f) i j memo =
      let computed =
        remember (i, j)
          (match_step (match_automaton f) i j (get_elem? str i) (get_elem? pattern j) memo) in
      recalled computed (lookup (i, j) memo) memo

abbrev pub first_of : Option (Bool × Memo) → Option Bool
first_of none = none
first_of (some (b, memo)) = some b

-- `matchPatternAutomaton`: every call moves on in the string or in the pattern.
unfoldable pub match_pattern_automaton : Bytes → Bytes → Option Bool
unfolding match_automaton bytes_eq
match_pattern_automaton str pattern =
    if bytes_eq pattern []
    then some (bytes_eq str [])
    else if bytes_eq pattern (codes "*")
    then some (not (bytes_eq str []))
    else first_of (match_automaton str pattern (length str + length pattern + 1) 0 0 [])

module _ (match_pattern_regex match_pattern_glob : Bytes → Bytes → Bool) where
  -- `MatchPatternWithStrategy`
  unfoldable pub match_pattern_with_strategy : Bytes → Bytes → MatchingStrategy → Option Bool
  unfolding match_pattern_simple match_pattern_automaton
  match_pattern_with_strategy str pattern strategy_simple = some (match_pattern_simple str pattern)
  match_pattern_with_strategy str pattern strategy_regex = some (match_pattern_regex str pattern)
  match_pattern_with_strategy str pattern strategy_automaton = match_pattern_automaton str pattern
  match_pattern_with_strategy str pattern strategy_glob = some (match_pattern_glob str pattern)
