-- ===== src/Protocol/Resp/RoundTrip.antt =====
-- Reading back what was written.
use mathlib.Core.List.{append_assoc}
use redis_inmemory_replica.Base.{
  ℕ, zero, suc, ◌+◌, ◌≤◌, ◌<◌, ◌≡◌, refl, [], ◌∷◌, ◌++◌, Bytes, ok, ℤ, some, length, length-append,
  arith,
}
use redis_inmemory_replica.Stream.{Stream, read_byte}
use redis_inmemory_replica.Stream.Consume.{read_full-append}
use redis_inmemory_replica.Protocol.Types.{Value, count_values}
use redis_inmemory_replica.Protocol.Integer.{decimal, format_int}
use redis_inmemory_replica.Protocol.Integer.Exact.{IsInt64, parse_int64-format_int}
use redis_inmemory_replica.Protocol.Reader.{
  Error, crlf_bytes, read_simple_string, read_error, read_integer, bulk_data, read_bulk_string,
  read_elements, read_array, dispatch, read_value, read_next, max_bulk_size, max_array_size,
}
use redis_inmemory_replica.Protocol.Reader.Lines.{
  IsLine, read_line-append, expect_crlf-append, format_int-IsLine, read_bulk_length-append,
  read_array_length-append,
}
use redis_inmemory_replica.Protocol.Writer.{
  write_simple_string, write_error, write_integer, write_bulk_string, write_null_bulk_string,
  write_null_array, array_header, write_value, write_values,
}
use redis_inmemory_replica.Protocol.Resp.{Resp, Resps, to_value, to_values, count, Fits, AllFit}

-- The bytes of a reply on the wire.
unfoldable mutual
  unfolding write_simple_string write_error write_integer write_bulk_string write_null_bulk_string
      write_null_array

  pub wire : Resp → Bytes
  wire (Resp.simple d) = write_simple_string d
  wire (Resp.error d) = write_error d
  wire (Resp.bulk d) = write_bulk_string d
  wire (Resp.number z) = write_integer z
  wire Resp.null_bulk = write_null_bulk_string
  wire Resp.null_array = write_null_array
  wire (Resp.items rs) = array_header (count rs) ++ wires rs

  pub wires : Resps → Bytes
  wires Resps.none = []
  wires (Resps.more r rs) = wire r ++ wires rs

count-to_values : (rs : Resps) → count_values (to_values rs) ≡ count rs
unfolding to_value
count-to_values Resps.none = refl
count-to_values (Resps.more r rs) = omega (arith, count-to_values rs)

-- The writer sends every reply, as its bytes on the wire.
mutual
  unfolding write_value to_value wire

  pub write_value-to_value : (r : Resp) → write_value (to_value r) ≡ some (wire r)
  write_value-to_value (Resp.simple d) = refl
  write_value-to_value (Resp.error d) = refl
  write_value-to_value (Resp.bulk d) = refl
  write_value-to_value (Resp.number z) = refl
  write_value-to_value Resp.null_bulk = refl
  write_value-to_value Resp.null_array = refl
  write_value-to_value (Resp.items rs) = rw (count-to_values rs, write_values-to_values rs)

  write_values-to_values : (rs : Resps) → write_values (to_values rs) ≡ some (wires rs)
  write_values-to_values Resps.none = refl
  write_values-to_values (Resps.more r rs) = rw (write_value-to_value r, write_values-to_values rs)

bulk_data-append :
    (d rest : Bytes)
    → bulk_data (some (length d)) (d ++ (crlf_bytes ++ rest)) ≡ (ok (to_value (Resp.bulk d)), rest)
unfolding to_value
bulk_data-append d rest = rw (read_full-append d (crlf_bytes ++ rest), expect_crlf-append rest)

-- One reply at a time, from an element reader that reads the elements of an array.
module _ (next : Stream Error Value) (rest : Bytes) where
  dispatch-simple :
      (d : Bytes)
      → IsLine d
      → dispatch next b'+' (d ++ (crlf_bytes ++ rest)) ≡ (ok (to_value (Resp.simple d)), rest)
  unfolding dispatch read_simple_string to_value
  dispatch-simple d h = rw (read_line-append d rest h)

  dispatch-error :
      (d : Bytes)
      → IsLine d
      → dispatch next b'-' (d ++ (crlf_bytes ++ rest)) ≡ (ok (to_value (Resp.error d)), rest)
  unfolding dispatch read_error to_value
  dispatch-error d h = rw (read_line-append d rest h)

  dispatch-number :
      (z : ℤ)
      → IsInt64 z
      → dispatch next b':' (format_int z ++ (crlf_bytes ++ rest))
        ≡ (ok (to_value (Resp.number z)), rest)
  unfolding dispatch read_integer to_value
  dispatch-number z h =
      rw (read_line-append (format_int z) rest (format_int-IsLine z), parse_int64-format_int z h)

  dispatch-bulk :
      (d : Bytes)
      → length d ≤ max_bulk_size
      → dispatch next b'$' (decimal (length d) ++ (crlf_bytes ++ (d ++ (crlf_bytes ++ rest))))
        ≡ (ok (to_value (Resp.bulk d)), rest)
  unfolding dispatch read_bulk_string
  dispatch-bulk d h =
      rw (read_bulk_length-append (length d) (d ++ (crlf_bytes ++ rest)) h)
        (bulk_data-append d rest)

  dispatch-null_bulk :
      dispatch next b'$' (b'-' ∷ b'1' ∷ (crlf_bytes ++ rest)) ≡ (ok (to_value Resp.null_bulk), rest)
  unfolding dispatch read_bulk_string to_value
  dispatch-null_bulk = refl

  dispatch-null_array :
      dispatch next b'*' (b'-' ∷ b'1' ∷ (crlf_bytes ++ rest))
      ≡ (ok (to_value Resp.null_array), rest)
  unfolding dispatch read_array to_value
  dispatch-null_array = refl

-- A round of `read_value` at a type byte.
read_value-cons : (f c : ℕ) (s : Bytes) → read_value (suc f) (c ∷ s) ≡ dispatch (read_value f) c s
unfolding read_value read_byte
read_value-cons f c s = refl

read_array-append :
    (next : Stream Error Value) (rs : Resps) (s rest : Bytes)
    → count rs ≤ max_array_size
    → read_elements next (count rs) s ≡ (ok (to_values rs), rest)
    → dispatch next b'*' (decimal (count rs) ++ (crlf_bytes ++ s))
      ≡ (ok (to_value (Resp.items rs)), rest)
unfolding dispatch read_array to_value
read_array-append next rs s rest h e = rw (read_array_length-append (count rs) s h, e)

read_elements-more :
    (next : Stream Error Value) (r : Resp) (rs : Resps) (s t u : Bytes)
    → next s ≡ (ok (to_value r), t)
    → read_elements next (count rs) t ≡ (ok (to_values rs), u)
    → read_elements next (suc (count rs)) s ≡ (ok (to_values (Resps.more r rs)), u)
unfolding read_elements to_value
read_elements-more next r rs s t u p q = rw (p, q)

read_elements-none :
    (next : Stream Error Value) (s : Bytes)
    → read_elements next 0 s ≡ (ok (to_values Resps.none), s)
unfolding read_elements to_value
read_elements-none next s = refl

wire-pos : (r : Resp) → 0 < length (wire r)
unfolding wire
wire-pos (Resp.simple d) = omega arith
wire-pos _ = omega arith

mutual
  unfolding wire

  -- The fuel is not below the length of the text that is read.
  read_value-wire :
      (f : ℕ) (r : Resp) (rest : Bytes)
      → Fits r
      → length (wire r) ≤ suc f
      → read_value (suc f) (wire r ++ rest) ≡ (ok (to_value r), rest)
  read_value-wire f (Resp.simple d) rest (Fits.simple h) k =
      rw (append_assoc, read_value-cons) (dispatch-simple (read_value f) rest d h)
  read_value-wire f (Resp.error d) rest (Fits.error h) k =
      rw (append_assoc, read_value-cons) (dispatch-error (read_value f) rest d h)
  read_value-wire f (Resp.bulk d) rest (Fits.bulk h) k =
      simp append_assoc (rw read_value-cons (dispatch-bulk (read_value f) rest d h))
  read_value-wire f (Resp.number z) rest (Fits.number h) k =
      rw (append_assoc, read_value-cons) (dispatch-number (read_value f) rest z h)
  read_value-wire f Resp.null_bulk rest Fits.null_bulk k =
      rw read_value-cons (dispatch-null_bulk (read_value f) rest)
  read_value-wire f Resp.null_array rest Fits.null_array k =
      rw read_value-cons (dispatch-null_array (read_value f) rest)
  read_value-wire f (Resp.items rs) rest (Fits.items n h) k =
      let room : length (wires rs) ≤ f = omega (
        arith,
        length-append (decimal (count rs)) crlf_bytes,
        length-append (decimal (count rs) ++ crlf_bytes) (wires rs),
      ) in
      simp append_assoc (
        rw read_value-cons (
          read_array-append (read_value f) rs (wires rs ++ rest) rest n
            (read_elements-wires f rs rest h room)))

  read_elements-wires :
      (f : ℕ) (rs : Resps) (rest : Bytes)
      → AllFit rs
      → length (wires rs) ≤ f
      → read_elements (read_value f) (count rs) (wires rs ++ rest) ≡ (ok (to_values rs), rest)
  read_elements-wires f Resps.none rest AllFit.none k = read_elements-none (read_value f) rest
  read_elements-wires zero (Resps.more r rs) rest (AllFit.more h hs) k =
      absurd (omega (arith, wire-pos r, length-append (wire r) (wires rs)))
  read_elements-wires (suc f) (Resps.more r rs) rest (AllFit.more h hs) k =
      let sizes : length (wire r ++ wires rs) ≡ length (wire r) + length (wires rs) =
        length-append (wire r) (wires rs) in
      rw append_assoc (
        read_elements-more (read_value (suc f)) r rs (wire r ++ (wires rs ++ rest))
          (wires rs ++ rest) rest (read_value-wire f r (wires rs ++ rest) h (omega (arith, sizes)))
          (read_elements-wires (suc f) rs rest hs (omega (arith, sizes))))

pub read_next-wire :
    (r : Resp) (rest : Bytes) → Fits r → read_next (wire r ++ rest) ≡ (ok (to_value r), rest)
unfolding read_next
read_next-wire r rest h =
    read_value-wire (length (wire r ++ rest)) r rest h (omega (arith, length-append (wire r) rest))

-- Every reply that fits the protocol (lines without a line feed, 64-bit integers, strings and arrays
-- within the size limits) can be written, and reading what was written gives the reply and leaves
-- what came behind it.
pub read_next-write_value :
    (r : Resp) (rest : Bytes)
    → Fits r
    → (sent : Bytes) × (write_value (to_value r) ≡ some sent)
      × (read_next (sent ++ rest) ≡ (ok (to_value r), rest))
read_next-write_value r rest h = (wire r, write_value-to_value r, read_next-wire r rest h)
