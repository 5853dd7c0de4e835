-- ===== src/Protocol/Integer.antt =====
-- `parseInt64` of protocol/reader.go, and the decimal texts that the writer sends
-- (`strconv.FormatInt`, `strconv.Itoa`). An `int64` is its 64-bit pattern.
pub mod Exact
use redis_inmemory_replica.Base.{
  ℕ, zero, suc, ◌+◌, ◌-◌, ◌*◌, ◌/◌, ◌%◌, ◌^◌, Bool, ◌&&◌, ◌||◌, List, [], ◌∷◌, ◌++◌, Bytes, Result,
  ok, err, ℤ, pos, negsuc, word_mod, signed64, neg64, ltb, ◌==◌, if◌then◌else◌,
}

-- `strconv.ErrSyntax` and `strconv.ErrRange`.
pub data ParseError : Type 0 where
  syntax range : ParseError

-- `(1<<63-1)/10`
abbrev pub tenth_of_max : ℕ
tenth_of_max = (2 ^ 63 - 1) / 10

-- `n > (1<<63-1)/10`, where a pattern from `2 ^ 63` on is a negative number.
abbrev pub too_large : ℕ → Bool
too_large n = ltb n (2 ^ 63) && ltb tenth_of_max n

unfoldable pub scan : Bytes → ℕ → Result ParseError ℕ
scan [] n = ok n
scan (c ∷ b) n =
    let rest = scan b ((n * 10 + (c - b'0')) % word_mod) in
    if ltb c b'0' || ltb b'9' c then err syntax else if too_large n then err range else rest

-- The test `i >= len(b)` after the sign.
abbrev pub scan_some : Bytes → Result ParseError ℕ
scan_some [] = err syntax
scan_some (c ∷ b) = scan (c ∷ b) 0

abbrev pub signed_of : (ℕ → ℕ) → Result ParseError ℕ → Result ParseError ℤ
signed_of f (ok n) = ok (signed64 (f n))
signed_of f (err e) = err e

unfoldable pub parse_int64 : Bytes → Result ParseError ℤ
unfolding scan
parse_int64 [] = err syntax
parse_int64 (c ∷ b) =
    if c == b'-'
    then signed_of neg64 (scan_some b)
    else if c == b'+'
    then signed_of (λ n. n) (scan_some b)
    else signed_of (λ n. n) (scan (c ∷ b) 0)

-- The digits of `n`, where the fuel is above `n`.
unfoldable pub digits : ℕ → ℕ → Bytes
digits zero n = []
digits (suc f) n =
    let rest = digits f (n / 10) in
    if ltb n 10 then (b'0' + n) ∷ [] else rest ++ (b'0' + n % 10) ∷ []

unfoldable pub decimal : ℕ → Bytes
unfolding digits
decimal n = digits (suc n) n

-- `strconv.FormatInt(n, 10)`
unfoldable pub format_int : ℤ → Bytes
unfolding decimal
format_int (pos n) = decimal n
format_int (negsuc n) = b'-' ∷ decimal (suc n)
