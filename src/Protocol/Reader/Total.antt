-- ===== src/Protocol/Reader/Total.antt =====
-- The fuel suffices: the reader never runs out of it, whatever the stream holds.
use redis_inmemory_replica.Base.{
  ℕ, zero, suc, ◌≤◌, Bool, true, false, Bytes, Result, ok, err, ℤ, pos, negsuc, length, arith,
  if◌then◌else◌,
}
use redis_inmemory_replica.Stream.{
  Stream, IoError, pure, fail, lift, ◌>>=◌, continue, rename, map_err, read_bytes, read_full,
}
use redis_inmemory_replica.Stream.Consume.{Shrinks, Shrinks-read_bytes, Shrinks-read_full}
use redis_inmemory_replica.Protocol.Integer.{ParseError, parse_int64}
use redis_inmemory_replica.Protocol.Reader.{
  Error, read_line_failed, read_crlf_failed, out_of_fuel, check_line, check_crlf, read_line,
  expect_crlf, parsed, check_length, invalid_bulk_text, invalid_array_text, invalid_bulk_length,
  invalid_array_length, read_bulk_length, read_array_length, lf, max_bulk_size, max_array_size,
}

-- An error of the source, not of the model.
abbrev pub IsReal : Error → Type 0
IsReal out_of_fuel = ⊥
IsReal _ = Unit

module _ {A : Type 0} where
  abbrev pub Fine : ℕ → Result Error A × Bytes → Type 0
  Fine n (ok a, t) = length t ≤ n
  Fine n (err e, t) = IsReal e

  -- On at most `n` bytes the operation ends with a value or an error of the source, and leaves at
  -- most `n` bytes.
  pub record Ends (n : ℕ) (m : Stream Error A) : Type 0 where
    pub at : (s : Bytes) → length s ≤ n → Fine n (m s)

  pub Ends-pure : (n : ℕ) (a : A) → Ends n (pure a)
  Ends-pure n a = record { at = λ s h. h }

  pub Ends-fail : (n : ℕ) (e : Error) → IsReal e → Ends n (fail e)
  Ends-fail n e r = record { at = λ s h. r }

  abbrev pub RealErrors : Result Error A → Type 0
  RealErrors (ok a) = Unit
  RealErrors (err e) = IsReal e

  Fine-lift : (n : ℕ) (r : Result Error A) (s : Bytes) → RealErrors r → length s ≤ n → Fine n (r, s)
  Fine-lift n (ok a) s r h = h
  Fine-lift n (err e) s r h = r

  pub Ends-lift : (n : ℕ) (r : Result Error A) → RealErrors r → Ends n (lift r)
  Ends-lift n r q = record { at = λ s h. Fine-lift n r s q h }

  pub Ends-if :
      (n : ℕ) (b : Bool) (m k : Stream Error A) → Ends n m → Ends n k → Ends n (if b then m else k)
  Ends-if n true m k hm hk = hm
  Ends-if n false m k hm hk = hk

module _ {A B : Type 0} where
  Fine-continue :
      (n : ℕ) (r : Result Error A × Bytes) (f : A → Stream Error B)
      → Fine n r
      → ((a : A) → Ends n (f a))
      → Fine n (continue r f)
  Fine-continue n (ok a, t) f h k = (k a).at t h
  Fine-continue n (err e, t) f h k = h

  pub Ends-bind :
      (n : ℕ) (m : Stream Error A) (f : A → Stream Error B)
      → Ends n m
      → ((a : A) → Ends n (f a))
      → Ends n (m >>= f)
  Ends-bind n m f h k = record { at = λ s l. Fine-continue n (m s) f (h.at s l) k }

module _ {A : Type 0} where
  Fine-rename :
      (n : ℕ) (f : IoError → Error) (r : Result IoError A × Bytes)
      → ((e : IoError) → IsReal (f e))
      → length r.1 ≤ n
      → Fine n (rename f r)
  Fine-rename n f (ok a, t) real h = h
  Fine-rename n f (err e, t) real h = real e

  pub Ends-map_err :
      (n : ℕ) (f : IoError → Error) (m : Stream IoError A)
      → ((e : IoError) → IsReal (f e))
      → Shrinks m
      → Ends n (map_err f m)
  Ends-map_err n f m real h = record {
    at = λ s l.
        Fine-rename n f (m s) real (let k : length (m s).1 ≤ length s = h.at s in omega arith);
  }

check_line-real : (line : Bytes) → RealErrors (check_line line)
unfolding check_line
check_line-real line = ground arith

pub Ends-read_line : (n : ℕ) → Ends n read_line
unfolding read_line
Ends-read_line n =
    Ends-bind n (map_err read_line_failed (read_bytes lf)) _
      (Ends-map_err n read_line_failed (read_bytes lf) (λ e. tt) (Shrinks-read_bytes lf))
      λ line. Ends-lift n (check_line line) (check_line-real line)

check_crlf-real : (crlf : Bytes) → RealErrors (check_crlf crlf)
check_crlf-real crlf = ground arith

pub Ends-expect_crlf : (n : ℕ) → Ends n expect_crlf
unfolding expect_crlf
Ends-expect_crlf n =
    Ends-bind n (map_err read_crlf_failed (read_full 2)) _
      (Ends-map_err n read_crlf_failed (read_full 2) (λ e. tt) (Shrinks-read_full 2))
      λ crlf. Ends-lift n (check_crlf crlf) (check_crlf-real crlf)

pub parsed-real :
    {A : Type 0} (e : Error) (r : Result ParseError A) → IsReal e → RealErrors (parsed e r)
parsed-real e (ok a) h = tt
parsed-real e (err x) h = h

check_length-real :
    (limit : ℕ) (e : ℤ → Error) (z : ℤ)
    → ((z : ℤ) → IsReal (e z))
    → RealErrors (check_length limit e z)
check_length-real limit e (negsuc zero) h = tt
check_length-real limit e (negsuc (suc n)) h = h (negsuc (suc n))
check_length-real limit e (pos n) h = ground (arith, h (pos n))

module _ (n limit : ℕ) (bad_text : Bytes → Error) (bad_length : ℤ → Error)
    (text_real : (b : Bytes) → IsReal (bad_text b))
    (length_real : (z : ℤ) → IsReal (bad_length z)) where
  Ends-length_line : Ends n (do
    line ← read_line
    z ← lift (parsed (bad_text line) (parse_int64 line))
    lift (check_length limit bad_length z))
  Ends-length_line = Ends-bind n read_line _ (Ends-read_line n) λ line.
      Ends-bind n (lift (parsed (bad_text line) (parse_int64 line))) _
        (Ends-lift n _ (parsed-real _ (parse_int64 line) (text_real line)))
        λ z. Ends-lift n _ (check_length-real limit bad_length z length_real)

pub Ends-read_bulk_length : (n : ℕ) → Ends n read_bulk_length
unfolding read_bulk_length
Ends-read_bulk_length n =
    Ends-length_line n max_bulk_size invalid_bulk_text invalid_bulk_length (λ _. tt) (λ _. tt)

pub Ends-read_array_length : (n : ℕ) → Ends n read_array_length
unfolding read_array_length
Ends-read_array_length n =
    Ends-length_line n max_array_size invalid_array_text invalid_array_length (λ _. tt) (λ _. tt)
