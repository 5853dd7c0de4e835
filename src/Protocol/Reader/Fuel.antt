-- ===== src/Protocol/Reader/Fuel.antt =====
-- `ReadNext` ends: the rounds that the model allows suffice.
use redis_inmemory_replica.Base.{
  ℕ, zero, suc, ◌≤◌, ◌<◌, ◌≡◌, refl, [], ◌∷◌, Bytes, Result, ok, err, Option, none, some, length,
  arith,
}
use redis_inmemory_replica.Stream.{Stream, map_err, read_byte, read_full, lift}
use redis_inmemory_replica.Stream.Consume.{Shrinks-read_full}
use redis_inmemory_replica.Protocol.Types.{Value}
use redis_inmemory_replica.Protocol.Integer.{parse_int64}
use redis_inmemory_replica.Protocol.Reader.{
  Error, io, read_line, expect_crlf, parsed, unknown_type, invalid_integer, read_simple_string,
  read_error, read_integer, read_bulk_length, read_array_length, bulk_data, read_bulk_string,
  read_elements, array_data, read_array, dispatch, read_value, read_next,
}
use redis_inmemory_replica.Protocol.Reader.Total.{
  IsReal, Fine, Ends, Ends-pure, Ends-fail, Ends-lift, Ends-if, Ends-bind, Ends-map_err,
  Ends-read_line, Ends-expect_crlf, Ends-read_bulk_length, Ends-read_array_length, parsed-real,
}

module _ (n : ℕ) where
  Ends-simple : Ends n read_simple_string
  unfolding read_simple_string
  Ends-simple = Ends-bind n read_line _ (Ends-read_line n) λ line. Ends-pure n _

  Ends-error : Ends n read_error
  unfolding read_error
  Ends-error = Ends-bind n read_line _ (Ends-read_line n) λ line. Ends-pure n _

  Ends-integer : Ends n read_integer
  unfolding read_integer
  Ends-integer = Ends-bind n read_line _ (Ends-read_line n) λ line.
      Ends-bind n (lift (parsed (invalid_integer line) (parse_int64 line))) _
        (Ends-lift n _ (parsed-real _ (parse_int64 line) tt)) λ z. Ends-pure n _

  Ends-bulk_data : (o : Option ℕ) → Ends n (bulk_data o)
  Ends-bulk_data none = Ends-pure n _
  Ends-bulk_data (some k) =
      Ends-bind n (map_err io (read_full k)) _
        (Ends-map_err n io (read_full k) (λ e. tt) (Shrinks-read_full k))
        λ d. Ends-bind n expect_crlf _ (Ends-expect_crlf n) λ _. Ends-pure n _

  Ends-bulk : Ends n read_bulk_string
  unfolding read_bulk_string
  Ends-bulk = Ends-bind n read_bulk_length bulk_data (Ends-read_bulk_length n) Ends-bulk_data

  module _ (next : Stream Error Value) (ends : Ends n next) where
    Ends-elements : (k : ℕ) → Ends n (read_elements next k)
    unfolding read_elements
    Ends-elements zero = Ends-pure n _
    Ends-elements (suc k) =
        Ends-bind n next _ ends
          λ v. Ends-bind n (read_elements next k) _ (Ends-elements k) λ vs. Ends-pure n _

    Ends-array_data : (o : Option ℕ) → Ends n (array_data next o)
    Ends-array_data none = Ends-pure n _
    Ends-array_data (some k) =
        Ends-bind n (read_elements next k) _ (Ends-elements k) λ vs. Ends-pure n _

    Ends-array : Ends n (read_array next)
    unfolding read_array
    Ends-array =
        Ends-bind n read_array_length (array_data next) (Ends-read_array_length n) Ends-array_data

    pub Ends-dispatch : (c : ℕ) → Ends n (dispatch next c)
    unfolding dispatch
    Ends-dispatch c = Ends-if n _ _ _ Ends-simple (
        Ends-if n _ _ _ Ends-error (
          Ends-if n _ _ _ Ends-integer (
            Ends-if n _ _ _ Ends-bulk
              (Ends-if n _ _ _ Ends-array (Ends-fail n (unknown_type c) tt)))))

module _ {A : Type 0} where
  pub Fine-mono : (m n : ℕ) (r : Result Error A × Bytes) → m ≤ n → Fine m r → Fine n r
  Fine-mono m n (ok a, t) h k = omega arith
  Fine-mono m n (err e, t) h k = k

read_value-cons : (f c : ℕ) (s : Bytes) → read_value (suc f) (c ∷ s) ≡ dispatch (read_value f) c s
unfolding read_value read_byte
read_value-cons f c s = refl

read_value-nil : (f n : ℕ) → Fine n (read_value (suc f) [])
unfolding read_value read_byte
read_value-nil f n = tt

Fine-read_value : (f : ℕ) (s : Bytes) → length s ≤ f → Fine f (read_value (suc f) s)
Fine-read_value f [] h = read_value-nil f f
Fine-read_value zero (c ∷ s) h = absurd (omega arith)
Fine-read_value (suc f) (c ∷ s) h = rw read_value-cons (
    Fine-mono f (suc f) _ (omega arith) (
      (Ends-dispatch f (read_value (suc f)) (record { at = Fine-read_value f }) c).at s
        (omega arith)))

module _ {A : Type 0} where
  -- A value with at least one byte taken, or one of the errors of the source.
  abbrev pub Progress : ℕ → Result Error A × Bytes → Type 0
  Progress n (ok a, t) = length t < n
  Progress n (err e, t) = IsReal e

  pub Fine-Progress : (n : ℕ) (r : Result Error A × Bytes) → Fine n r → Progress (suc n) r
  Fine-Progress n (ok a, t) h = omega arith
  Fine-Progress n (err e, t) h = h

read_next-nil : Progress 0 (read_next [])
unfolding read_next read_value read_byte
read_next-nil = tt

read_next-cons :
    (c : ℕ) (s : Bytes) → read_next (c ∷ s) ≡ dispatch (read_value (suc (length s))) c s
unfolding read_next
read_next-cons c s = read_value-cons (suc (length s)) c s

-- On every stream `ReadNext` ends: it returns a value and has taken at least one byte, or it
-- returns one of the errors of the source.
pub read_next-Progress : (s : Bytes) → Progress (length s) (read_next s)
read_next-Progress [] = read_next-nil
read_next-Progress (c ∷ s) = rw read_next-cons (
    Fine-Progress (length s) _ (
      (Ends-dispatch (length s) (read_value (suc (length s)))
          (record { at = Fine-read_value (length s) }) c).at
        s (omega arith)))
