-- ===== src/Protocol/Integer/Exact.antt =====
-- `parseInt64` against the value of a decimal text.
use redis_inmemory_replica.Base.{
  ℕ, zero, suc, ◌+◌, ◌-◌, ◌*◌, ◌/◌, ◌%◌, ◌^◌, ◌≤◌, ◌<◌, ◌≡◌, refl, sym, ap, ◌∙◌, ◌⊎◌, inl, inr, [],
  ◌∷◌, ◌++◌, Bytes, Result, ok, err, ℤ, pos, negsuc, neg, signed64, neg64, word_mod, Bool-cases,
  ==_iff, ◌≢◌, All, All-append, arith, ◌==◌, ltb,
}
use redis_inmemory_replica.Protocol.Integer.{
  ParseError, scan, scan_some, signed_of, parse_int64, digits, decimal, format_int,
}

abbrev pub IsDigit : ℕ → Type 0
IsDigit c = (b'0' ≤ c) × (c ≤ b'9')

-- The number that digits write after those of `n`.
abbrev pub decimal_value : ℕ → Bytes → ℕ
decimal_value n [] = n
decimal_value n (c ∷ b) = decimal_value (n * 10 + (c - b'0')) b

pub decimal_value-ge : (n : ℕ) (b : Bytes) → n ≤ decimal_value n b
decimal_value-ge n [] = omega arith
decimal_value-ge n (c ∷ b) = omega (arith, decimal_value-ge (n * 10 + (c - b'0')) b)

decimal_value-snoc :
    (n : ℕ) (b : Bytes) (c : ℕ)
    → decimal_value n (b ++ c ∷ []) ≡ decimal_value n b * 10 + (c - b'0')
decimal_value-snoc n [] c = refl
decimal_value-snoc n (d ∷ b) c = decimal_value-snoc (n * 10 + (d - b'0')) b c

-- Up to two beyond the largest `int64` the accumulator holds the number itself.
pub scan-exact :
    (n : ℕ) (b : Bytes)
    → All IsDigit b
    → decimal_value n b < 2 ^ 63 + 2
    → scan b n ≡ ok (decimal_value n b)
unfolding scan
scan-exact n [] d h = refl
scan-exact n (c ∷ b) d h =
    let m = n * 10 + (c - b'0') in
    let same : m % word_mod ≡ m = omega (arith, decimal_value-ge m b) in
    rw same (ground (arith, d.0.0, d.0.1, decimal_value-ge m b, scan-exact m b d.1 h))

-- Only digits are scanned.
scan-IsDigit : (n m : ℕ) (b : Bytes) → scan b n ≡ ok m → All IsDigit b
unfolding scan
scan-IsDigit n m [] h = tt
scan-IsDigit n m (c ∷ b) h =
    (ground arith, scan-IsDigit ((n * 10 + (c - b'0')) % word_mod) m b (ground arith))

digits-IsDigit : (f n : ℕ) → All IsDigit (digits f n)
unfolding digits
digits-IsDigit zero n = tt
digits-IsDigit (suc f) n = elim (Bool-cases (ltb n 10)) [
  | inl small ↦ rw small (ground arith, tt)
  | inr large ↦ rw large (
      All-append IsDigit (digits f (n / 10)) _ (digits-IsDigit f (n / 10))
        ((omega arith, omega arith), tt))
]

digits-value : (f n : ℕ) → n < f → decimal_value 0 (digits f n) ≡ n
unfolding digits
digits-value zero n h = elim h [ ]
digits-value (suc f) n h =
    ground
      (arith, decimal_value-snoc 0 (digits f (n / 10)) (b'0' + n % 10), digits-value f (n / 10))

digits-nonempty : (f n : ℕ) → digits (suc f) n ≢ []
unfolding digits
digits-nonempty f n h = elim (Bool-cases (ltb n 10)) [
  | inl small ↦ cc (rw small at h)
  | inr large ↦ append-nonempty (digits f (n / 10)) _ (rw large at h)
]
  where
    append-nonempty : (xs : Bytes) (c : ℕ) → xs ++ c ∷ [] ≡ [] → ⊥
    append-nonempty [] c h = cc
    append-nonempty (x ∷ xs) c h = cc

pub decimal-IsDigit : (n : ℕ) → All IsDigit (decimal n)
unfolding decimal
decimal-IsDigit n = digits-IsDigit (suc n) n

pub decimal-value : (n : ℕ) → decimal_value 0 (decimal n) ≡ n
unfolding decimal
decimal-value n = digits-value (suc n) n (omega arith)

pub decimal-nonempty : (n : ℕ) → decimal n ≢ []
unfolding decimal
decimal-nonempty n = digits-nonempty n n

-- Two numbers have one decimal text only if they are one.
pub decimal-injective : (m n : ℕ) → decimal m ≡ decimal n → m ≡ n
decimal-injective m n h = sym (decimal-value m) ∙ ap (decimal_value 0) h ∙ decimal-value n

parse_int64-unsigned :
    (b : Bytes)
    → All IsDigit b
    → b ≢ []
    → decimal_value 0 b < 2 ^ 63 + 2
    → parse_int64 b ≡ ok (signed64 (decimal_value 0 b))
unfolding parse_int64
parse_int64-unsigned [] d e h = absurd (e refl)
parse_int64-unsigned (c ∷ b) d e h = ground (arith, d.0.0, d.0.1, scan-exact 0 (c ∷ b) d h)

parse_int64-plus :
    (b : Bytes)
    → All IsDigit b
    → b ≢ []
    → decimal_value 0 b < 2 ^ 63 + 2
    → parse_int64 (b'+' ∷ b) ≡ ok (signed64 (decimal_value 0 b))
unfolding parse_int64
parse_int64-plus [] d e h = absurd (e refl)
parse_int64-plus (c ∷ b) d e h = ground (arith, scan-exact 0 (c ∷ b) d h)

parse_int64-minus :
    (b : Bytes)
    → All IsDigit b
    → b ≢ []
    → decimal_value 0 b < 2 ^ 63 + 2
    → parse_int64 (b'-' ∷ b) ≡ ok (signed64 (neg64 (decimal_value 0 b)))
unfolding parse_int64
parse_int64-minus [] d e h = absurd (e refl)
parse_int64-minus (c ∷ b) d e h = ground (arith, scan-exact 0 (c ∷ b) d h)

-- A nonempty text of digits is read as the number that it writes, with and without `+` where that
-- number is below 2^63, and as its negative behind `-` where it is at most 2^63.
pub parse_int64-exact :
    (b : Bytes)
    → All IsDigit b
    → b ≢ []
    → decimal_value 0 b ≤ 2 ^ 63
    → (decimal_value 0 b < 2 ^ 63 → parse_int64 b ≡ ok (pos (decimal_value 0 b)))
      × (decimal_value 0 b < 2 ^ 63 → parse_int64 (b'+' ∷ b) ≡ ok (pos (decimal_value 0 b)))
      × (parse_int64 (b'-' ∷ b) ≡ ok (neg (decimal_value 0 b)))
parse_int64-exact b d e h = (
  λ (small : decimal_value 0 b < 2 ^ 63). ground (arith, parse_int64-unsigned b d e (omega arith)),
  λ (small : decimal_value 0 b < 2 ^ 63). ground (arith, parse_int64-plus b d e (omega arith)),
  ground (arith, parse_int64-minus b d e (omega arith)),
)

-- The overflow test lets 2^63 and 2^63 + 1 through without a sign: they come out negative.
pub parse_int64_wraps :
    (b : Bytes)
    → All IsDigit b
    → 2 ^ 63 ≤ decimal_value 0 b
    → decimal_value 0 b < 2 ^ 63 + 2
    → parse_int64 b ≡ ok (negsuc (2 ^ 64 - decimal_value 0 b - 1))
parse_int64_wraps [] d lo hi = absurd (omega arith)
parse_int64_wraps (c ∷ b) d lo hi = ground (arith, parse_int64-unsigned (c ∷ b) d (λ e. cc) hi)

-- The optional sign, and then at least one digit and nothing else.
abbrev pub IsNumeral : Bytes → Type 0
IsNumeral [] = ⊥
IsNumeral (c ∷ b) = All IsDigit (c ∷ b) ⊎ ((c ≡ b'-') ⊎ (c ≡ b'+')) × All IsDigit b × (b ≢ [])

scan_some-IsDigit : (m : ℕ) (b : Bytes) → scan_some b ≡ ok m → All IsDigit b × (b ≢ [])
scan_some-IsDigit m [] h = cc
scan_some-IsDigit m (c ∷ b) h = (scan-IsDigit 0 m (c ∷ b) h, λ e. cc)

signed_of-ok :
    (f : ℕ → ℕ) (r : Result ParseError ℕ) (z : ℤ) → signed_of f r ≡ ok z → (m : ℕ) × (r ≡ ok m)
signed_of-ok f (ok m) z h = (m, refl)
signed_of-ok f (err e) z h = cc

-- A text that `parseInt64` accepts is a numeral: digits, at least one, after at most one sign.
pub parse_int64-IsNumeral : (b : Bytes) (z : ℤ) → parse_int64 b ≡ ok z → IsNumeral b
unfolding parse_int64
parse_int64-IsNumeral [] z h = cc
parse_int64-IsNumeral (c ∷ b) z h = elim (Bool-cases (c == b'-')) [
  | inl minus ↦
      let (m, e) = signed_of-ok neg64 (scan_some b) z (rw minus at h) in
      inr (
        let (d, some_digit) = scan_some-IsDigit m b e in
        (inl ((==_iff c b'-').0 minus), d, some_digit))
  | inr no_minus ↦ elim (Bool-cases (c == b'+')) [
    | inl plus ↦
        let (m, e) = signed_of-ok (λ n. n) (scan_some b) z (rw (no_minus, plus) at h) in
        inr (
          let (d, some_digit) = scan_some-IsDigit m b e in
          (inr ((==_iff c b'+').0 plus), d, some_digit))
    | inr no_plus ↦
        let (m, e) = signed_of-ok (λ n. n) (scan (c ∷ b) 0) z (rw (no_minus, no_plus) at h) in
        inl (scan-IsDigit 0 m (c ∷ b) e)
  ]
]

-- The values of an `int64`.
abbrev pub IsInt64 : ℤ → Type 0
IsInt64 (pos n) = n < 2 ^ 63
IsInt64 (negsuc n) = n < 2 ^ 63

-- What the writer prints for an `int64`, the reader parses back.
pub parse_int64-format_int : (z : ℤ) → IsInt64 z → parse_int64 (format_int z) ≡ ok z
unfolding format_int
parse_int64-format_int (pos n) h = ground (
  arith,
  decimal-value n,
  (parse_int64-exact (decimal n) (decimal-IsDigit n) (decimal-nonempty n)
      (rw decimal-value (omega arith))).0,
)
parse_int64-format_int (negsuc n) h = ground (
  arith,
  decimal-value (suc n),
  (parse_int64-exact (decimal (suc n)) (decimal-IsDigit (suc n)) (decimal-nonempty (suc n))
      (rw decimal-value (omega arith))).2,
)
