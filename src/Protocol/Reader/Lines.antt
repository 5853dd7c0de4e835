-- ===== src/Protocol/Reader/Lines.antt =====
-- The reader at a line and at a length that stand in front of other bytes.
use mathlib.Core.List.{append_assoc}
use redis_inmemory_replica.Base.{
  ℕ, suc, ◌+◌, ◌-◌, ◌^◌, ◌≤◌, ◌<◌, ◌≡◌, ◌≢◌, [], ◌∷◌, ◌++◌, Bytes, ok, ℤ, pos, negsuc, some, length,
  length-append, take-append, drop-append, All, All-append, arith, bytes_eq_refl,
}
use redis_inmemory_replica.Stream.Consume.{read_bytes-append, read_full-append}
use redis_inmemory_replica.Protocol.Integer.{parse_int64, decimal, format_int}
use redis_inmemory_replica.Protocol.Integer.Exact.{IsDigit, decimal-IsDigit, parse_int64-format_int}
use redis_inmemory_replica.Protocol.Reader.{
  cr, lf, crlf_bytes, max_bulk_size, max_array_size, has_suffix, check_line, read_line, expect_crlf,
  read_bulk_length, read_array_length,
}

-- The bytes of a line hold no line feed.
abbrev pub IsLine : Bytes → Type 0
IsLine = All (λ c. c ≢ lf)

check_line-crlf : (line : Bytes) → check_line (line ++ crlf_bytes) ≡ ok line
unfolding check_line has_suffix
check_line-crlf line =
    let n : length (line ++ crlf_bytes) ≡ length line + 2 = length-append line crlf_bytes in
    let m : length line + 2 - 2 ≡ length line = omega arith in
    rw (n, m, drop-append, take-append) (ground (arith, bytes_eq_refl crlf_bytes))

IsLine-cr : (line : Bytes) → IsLine line → IsLine (line ++ cr ∷ [])
IsLine-cr line h = All-append (λ c. c ≢ lf) line (cr ∷ []) h (omega arith, tt)

crlf_regroup : (line rest : Bytes) → line ++ (crlf_bytes ++ rest) ≡ (line ++ cr ∷ []) ++ lf ∷ rest
crlf_regroup line rest = simp append_assoc

-- A line is read up to its terminator.
pub read_line-append :
    (line rest : Bytes) → IsLine line → read_line (line ++ (crlf_bytes ++ rest)) ≡ (ok line, rest)
unfolding read_line
read_line-append line rest h =
    let same : (line ++ cr ∷ []) ++ lf ∷ [] ≡ line ++ crlf_bytes = simp append_assoc in
    rw (
      crlf_regroup line rest,
      read_bytes-append lf (line ++ cr ∷ []) rest (IsLine-cr line h),
      same,
      check_line-crlf,
    )

pub expect_crlf-append : (rest : Bytes) → expect_crlf (crlf_bytes ++ rest) ≡ (ok tt, rest)
unfolding expect_crlf
expect_crlf-append rest =
    rw (read_full-append crlf_bytes rest) (ground (arith, bytes_eq_refl crlf_bytes))

digits-IsLine : (b : Bytes) → All IsDigit b → IsLine b
digits-IsLine [] h = tt
digits-IsLine (c ∷ b) h = (omega arith, digits-IsLine b h.1)

pub decimal-IsLine : (n : ℕ) → IsLine (decimal n)
decimal-IsLine n = digits-IsLine (decimal n) (decimal-IsDigit n)

pub format_int-IsLine : (z : ℤ) → IsLine (format_int z)
unfolding format_int
format_int-IsLine (pos n) = decimal-IsLine n
format_int-IsLine (negsuc n) = (omega arith, decimal-IsLine (suc n))

parse_int64-decimal : (n : ℕ) → n < 2 ^ 63 → parse_int64 (decimal n) ≡ ok (pos n)
parse_int64-decimal n h = unfold format_int in parse_int64-format_int (pos n) h

pub read_bulk_length-append :
    (n : ℕ) (rest : Bytes)
    → n ≤ max_bulk_size
    → read_bulk_length (decimal n ++ (crlf_bytes ++ rest)) ≡ (ok (some n), rest)
unfolding read_bulk_length
read_bulk_length-append n rest h =
    rw (read_line-append (decimal n) rest (decimal-IsLine n), parse_int64-decimal n (omega arith))
      (ground arith)

pub read_array_length-append :
    (n : ℕ) (rest : Bytes)
    → n ≤ max_array_size
    → read_array_length (decimal n ++ (crlf_bytes ++ rest)) ≡ (ok (some n), rest)
unfolding read_array_length
read_array_length-append n rest h =
    rw (read_line-append (decimal n) rest (decimal-IsLine n), parse_int64-decimal n (omega arith))
      (ground arith)
