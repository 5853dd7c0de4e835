-- ===== src/Protocol/Reader/Sound.antt =====
-- What a successful read of a line or of a length says.
use redis_inmemory_replica.Base.{
  ℕ, zero, suc, ◌+◌, ◌-◌, ◌*◌, ◌%◌, ◌^◌, ◌≤◌, ◌<◌, ◌≡◌, refl, inl, inr, [], ◌∷◌, ◌++◌, Bytes,
  Result, ok, err, ℤ, pos, negsuc, signed64, neg64, word_mod, Option, none, some, length, take,
  arith, Bool-cases, ltb, ◌==◌,
}
use redis_inmemory_replica.Stream.{map_err, read_bytes}
use redis_inmemory_replica.Stream.{lift, ◌>>=◌}
use redis_inmemory_replica.Stream.Invert.{read_bytes-ok}
use redis_inmemory_replica.Stream.Gives.{Gives, Gives-lift, Gives-map_err, Gives-bind}
use redis_inmemory_replica.Protocol.Integer.{ParseError, scan, scan_some, signed_of, parse_int64}
use redis_inmemory_replica.Protocol.Integer.Exact.{IsInt64}
use redis_inmemory_replica.Protocol.Reader.{
  invalid_bulk_text, invalid_bulk_length, invalid_array_text, invalid_array_length, Error,
  read_line_failed, lf, max_bulk_size, max_array_size, check_line, read_line, parsed, check_length,
  read_bulk_length, read_array_length,
}
use redis_inmemory_replica.Protocol.Reader.Lines.{IsLine}

IsLine-take :
    (n : ℕ) (before : Bytes) (c : ℕ)
    → IsLine before
    → suc n ≤ length (before ++ c ∷ [])
    → IsLine (take n (before ++ c ∷ []))
IsLine-take zero before c h k = tt
IsLine-take (suc n) [] c h k = absurd (omega arith)
IsLine-take (suc n) (b ∷ before) c h k = (h.0, IsLine-take n before c h.1 (omega arith))

check_line-ok :
    (line text : Bytes)
    → check_line line ≡ ok text
    → (2 ≤ length line) × (text ≡ take (length line - 2) line)
unfolding check_line
check_line-ok line text h = ground arith

-- The bytes up to the first line feed.
abbrev IsWhole : Bytes → Type 0
IsWhole whole = (before : Bytes) × (whole ≡ before ++ lf ∷ []) × IsLine before

read_bytes-IsWhole : Gives IsWhole (read_bytes lf)
read_bytes-IsWhole = record {
  at = λ s whole t h.
      let (before, e, none_before, taken) = read_bytes-ok lf s whole t h in
      (before, e, none_before);
}

check_line-IsLine : (whole line : Bytes) → IsWhole whole → check_line whole ≡ ok line → IsLine line
check_line-IsLine whole line (before, e, none_before) h =
    let (long, shape) = check_line-ok whole line h in
    let n = length (before ++ lf ∷ []) in
    let room : suc (n - 2) ≤ n = let l : 2 ≤ n = rw (← e) long in omega arith in
    rw (shape, e) (IsLine-take (n - 2) before lf none_before room)

-- A line that was read holds no line feed.
pub read_line-IsLine : Gives IsLine read_line
unfolding read_line
read_line-IsLine =
    Gives-bind IsWhole IsLine (map_err read_line_failed (read_bytes lf)) _
      (Gives-map_err IsWhole read_line_failed (read_bytes lf) read_bytes-IsWhole)
      (λ whole w. Gives-lift IsLine (check_line whole) (λ line. check_line-IsLine whole line w))

signed64-IsInt64 : (w : ℕ) → w < word_mod → IsInt64 (signed64 w)
signed64-IsInt64 w h = elim (Bool-cases (ltb w (2 ^ 63))) [
  | inl small ↦ rw small (ground arith)
  | inr large ↦ rw large (ground arith)
]

scan-lt : (b : Bytes) (n m : ℕ) → n < word_mod → scan b n ≡ ok m → m < word_mod
unfolding scan
scan-lt [] n m h e = ground arith
scan-lt (c ∷ b) n m h e =
    scan-lt b ((n * 10 + (c - b'0')) % word_mod) m (omega arith) (ground arith)

scan_some-lt : (b : Bytes) (m : ℕ) → scan_some b ≡ ok m → m < word_mod
scan_some-lt [] m e = cc
scan_some-lt (c ∷ b) m e = scan-lt (c ∷ b) 0 m (omega arith) e

signed_of-IsInt64 :
    (f : ℕ → ℕ) (r : Result ParseError ℕ) (z : ℤ)
    → ((m : ℕ) → r ≡ ok m → f m < word_mod)
    → signed_of f r ≡ ok z
    → IsInt64 z
signed_of-IsInt64 f (ok m) z h e =
    let same : signed64 (f m) ≡ z = cc in rw (← same) (signed64-IsInt64 (f m) (h m refl))
signed_of-IsInt64 f (err x) z h e = cc

-- What is parsed is an `int64`.
pub parse_int64-IsInt64 : (b : Bytes) (z : ℤ) → parse_int64 b ≡ ok z → IsInt64 z
unfolding parse_int64
parse_int64-IsInt64 [] z h = cc
parse_int64-IsInt64 (c ∷ b) z h = elim (Bool-cases (c == b'-')) [
  | inl minus ↦
      signed_of-IsInt64 neg64 (scan_some b) z (λ m e. omega (arith, scan_some-lt b m e))
        (rw minus at h)
  | inr no_minus ↦ elim (Bool-cases (c == b'+')) [
    | inl plus ↦
        signed_of-IsInt64 (λ n. n) (scan_some b) z (scan_some-lt b) (rw (no_minus, plus) at h)
    | inr no_plus ↦
        signed_of-IsInt64 (λ n. n) (scan (c ∷ b) 0) z (λ m. scan-lt (c ∷ b) 0 m (omega arith))
          (rw (no_minus, no_plus) at h)
  ]
]

-- A length that a check lets through is within the limit.
abbrev pub Within : ℕ → Option ℕ → Type 0
Within limit none = Unit
Within limit (some n) = n ≤ limit

check_length-Within :
    (limit : ℕ) (e : ℤ → Error) (z : ℤ) (n : Option ℕ)
    → check_length limit e z ≡ ok n
    → Within limit n
check_length-Within limit e (negsuc zero) none h = tt
check_length-Within limit e (negsuc zero) (some n) h = cc
check_length-Within limit e (negsuc (suc k)) n h = cc
check_length-Within limit e (pos k) none h = tt
check_length-Within limit e (pos k) (some n) h = ground arith

pub parsed-ok :
    {A : Type 0} (e : Error) (r : Result ParseError A) (a : A) → parsed e r ≡ ok a → r ≡ ok a
parsed-ok e (ok b) a h = cc
parsed-ok e (err x) a h = cc

-- The length of a length line, whatever the errors are called.
module _ (limit : ℕ) (bad_text : Bytes → Error) (bad_length : ℤ → Error) where
  length_line-Within : Gives (Within limit) (do
    line ← read_line
    n ← lift (parsed (bad_text line) (parse_int64 line))
    lift (check_length limit bad_length n))
  length_line-Within = Gives-bind IsLine (Within limit) read_line _ read_line-IsLine λ line _.
      Gives-bind IsInt64 (Within limit) (lift (parsed (bad_text line) (parse_int64 line))) _
        (Gives-lift IsInt64 _ λ z h. parse_int64-IsInt64 line z (parsed-ok _ _ z h))
        λ z _. Gives-lift (Within limit) _ (check_length-Within limit bad_length z)

pub read_bulk_length-Within : Gives (Within max_bulk_size) read_bulk_length
unfolding read_bulk_length
read_bulk_length-Within = length_line-Within max_bulk_size invalid_bulk_text invalid_bulk_length

pub read_array_length-Within : Gives (Within max_array_size) read_array_length
unfolding read_array_length
read_array_length-Within = length_line-Within max_array_size invalid_array_text invalid_array_length
