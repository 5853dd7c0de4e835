-- ===== src/Protocol/Skip/Agree.antt =====
-- `Skip` against `ReadNext`.
use mathlib.Core.List.{append_assoc}
use redis_inmemory_replica.Base.{
  ap, ℕ, zero, suc, ◌+◌, ◌≡◌, Bool, true, false, ◌||◌, ◌++◌, Bytes, Result, ok, err, Option, none,
  some, length, length-append, arith, bytes_eq→eq, ◌==◌, if◌then◌else◌,
}
use redis_inmemory_replica.Stream.{
  Stream, pure, fail, lift, ◌>>=◌, ◌>>◌, map_err, read_byte, read_full, discard,
}
use redis_inmemory_replica.Stream.Consume.{discard-append}
use redis_inmemory_replica.Stream.Invert.{continue-ok, rename-ok, lift-ok, read_full-ok}
use redis_inmemory_replica.Protocol.Types.{
  Value, Values, type_simple_string, type_error, type_integer, type_bulk_string, type_array,
}
use redis_inmemory_replica.Protocol.Integer.{parse_int64}
use redis_inmemory_replica.Protocol.Reader.{
  Error, io, read_crlf_failed, crlf_bytes, check_crlf, unknown_type, invalid_integer, parsed,
  read_line, expect_crlf, read_simple_string, read_error, read_integer, bulk_data, read_bulk_string,
  read_bulk_length, read_elements, array_data, read_array, read_array_length, dispatch, read_value,
  read_next,
}
use redis_inmemory_replica.Protocol.Skip.{
  skip_line, skip_data, skip_bulk, skip_elements, skip_items, skip_array, skip_dispatch, skip_value,
  skip,
}

-- Wherever the reader succeeds, skipping succeeds and leaves the same bytes.
module _ {A : Type 0} where
  record Follows (m : Stream Error A) (k : Stream Error (Unit {0})) : Type 0 where
    pub at : (s : Bytes) (a : A) (t : Bytes) → m s ≡ (ok a, t) → k s ≡ (ok tt, t)

  Follows-pure : (a : A) → Follows (pure a) (pure tt)
  Follows-pure a = record { at = λ s b t h. cc }

  Follows-fail : (e : Error) (k : Stream Error (Unit {0})) → Follows (fail e) k
  Follows-fail e k = record { at = λ s b t h. cc }

  Follows-if :
      (b : Bool) (m n : Stream Error A) (k l : Stream Error (Unit {0}))
      → Follows m k
      → Follows n l
      → Follows (if b then m else n) (if b then k else l)
  Follows-if true m n k l hm hn = hm
  Follows-if false m n k l hm hn = hn

  -- One test of two tags against two tests.
  Follows-or :
      (b c : Bool) (m n o : Stream Error A) (k l : Stream Error (Unit {0}))
      → Follows m k
      → Follows n k
      → Follows o l
      → Follows (if b then m else if c then n else o) (if b || c then k else l)
  Follows-or true c m n o k l hm hn ho = hm
  Follows-or false true m n o k l hm hn ho = hn
  Follows-or false false m n o k l hm hn ho = ho

module _ {A C : Type 0} where
  -- The same step on both sides.
  Follows-bind :
      (m : Stream Error C) (f : C → Stream Error A) (k : C → Stream Error (Unit {0}))
      → ((c : C) → Follows (f c) (k c))
      → Follows (m >>= f) (m >>= k)
  Follows-bind m f k h = record {
    at = λ s a t e. let (c, u, p, q) = continue-ok (m s) f a t e in rw p ((h c).at u a t q);
  }

  -- A step that the reader takes alone and that leaves the stream as it is.
  Follows-lift :
      (r : Result Error C) (f : C → Stream Error A) (k : Stream Error (Unit {0}))
      → ((c : C) → Follows (f c) k)
      → Follows (lift r >>= f) k
  Follows-lift (ok c) f k h = h c
  Follows-lift (err e) f k h = record { at = λ s a t p. cc }

module _ {A B : Type 0} where
  Follows-then :
      (m : Stream Error A) (f : A → Stream Error B) (k l : Stream Error (Unit {0}))
      → Follows m k
      → ((a : A) → Follows (f a) l)
      → Follows (m >>= f) (k >> l)
  Follows-then m f k l hm hf = record {
    at = λ s b t e.
        let (a, u, p, q) = continue-ok (m s) f b t e in rw (hm.at s a u p) ((hf a).at u b t q);
  }

simple-Follows : Follows read_simple_string skip_line
unfolding read_simple_string skip_line
simple-Follows = Follows-bind read_line _ _ λ line. Follows-pure _

error-Follows : Follows read_error skip_line
unfolding read_error skip_line
error-Follows = Follows-bind read_line _ _ λ line. Follows-pure _

integer-Follows : Follows read_integer skip_line
unfolding read_integer skip_line
integer-Follows =
    Follows-bind read_line _ _ λ line.
      Follows-lift (parsed (invalid_integer line) (parse_int64 line)) _ _ λ z. Follows-pure _

check_crlf-ok : (crlf : Bytes) (u : Unit {0}) → check_crlf crlf ≡ ok u → crlf ≡ crlf_bytes
check_crlf-ok crlf u h = ground (arith, bytes_eq→eq crlf crlf_bytes)

expect_crlf-ok :
    (s : Bytes) (u : Unit {0}) (t : Bytes) → expect_crlf s ≡ (ok u, t) → s ≡ crlf_bytes ++ t
unfolding expect_crlf
expect_crlf-ok s u t h =
    let (crlf, v, p, q) = continue-ok (map_err read_crlf_failed (read_full 2) s) _ u t h in
    let (n, e) = read_full-ok 2 s crlf v (rename-ok read_crlf_failed (read_full 2 s) crlf v p) in
    let (c, same) = lift-ok (check_crlf crlf) v u t q in rw (e, check_crlf-ok crlf u c, same)

discard-crlf :
    (n : ℕ) (d t : Bytes) → length d ≡ n → discard (n + 2) (d ++ (crlf_bytes ++ t)) ≡ (ok tt, t)
discard-crlf n d t h =
    let e : length (d ++ crlf_bytes) ≡ n + 2 = omega (arith, length-append d crlf_bytes) in
    rw (← e, ← append_assoc d crlf_bytes t) (discard-append (d ++ crlf_bytes) t)

data-Follows : (n : Option ℕ) → Follows (bulk_data n) (skip_data n)
data-Follows none = Follows-pure _
data-Follows (some n) = record {
  at = λ s v t h.
      let (d, u, p, q) = continue-ok (map_err io (read_full n) s) _ v t h in
      let (m, e) = read_full-ok n s d u (rename-ok io (read_full n s) d u p) in
      let (x, w, c, r) = continue-ok (expect_crlf u) _ v t q in
      let end : w ≡ t = ap (λ (o : Result Error Value × Bytes). o.1) r in
      rw (e, expect_crlf-ok u x w c, end, discard-crlf n d t m);
}

bulk-Follows : Follows read_bulk_string skip_bulk
unfolding read_bulk_string skip_bulk
bulk-Follows = Follows-bind read_bulk_length bulk_data skip_data data-Follows

module _ (next : Stream Error Value) (pass : Stream Error (Unit {0}))
    (follows : Follows next pass) where
  elements-Follows : (n : ℕ) → Follows (read_elements next n) (skip_elements pass n)
  unfolding read_elements skip_elements
  elements-Follows zero = Follows-pure _
  elements-Follows (suc n) = record {
    at = λ s vs t h.
        let (v, u, p, q) = continue-ok (next s) _ vs t h in
        let (ws, w, r, e) = continue-ok (read_elements next n u) _ vs t q in
        let end : w ≡ t = ap (λ (o : Result Error Values × Bytes). o.1) e in
        rw (follows.at s v u p, (elements-Follows n).at u ws w r, end);
  }

  items-Follows : (n : Option ℕ) → Follows (array_data next n) (skip_items pass n)
  items-Follows none = Follows-pure _
  items-Follows (some n) = record {
    at = λ s v t h.
        let (vs, u, p, q) = continue-ok (read_elements next n s) _ v t h in
        let end : u ≡ t = ap (λ (o : Result Error Value × Bytes). o.1) q in
        rw ((elements-Follows n).at s vs u p, end);
  }

  dispatch-Follows : (c : ℕ) → Follows (dispatch next c) (skip_dispatch pass c)
  unfolding dispatch skip_dispatch read_array skip_array
  dispatch-Follows c =
      Follows-or (c == type_simple_string) (c == type_error) _ _ _ _ _ simple-Follows error-Follows
        (Follows-if (c == type_integer) _ _ _ _ integer-Follows (
          Follows-if (c == type_bulk_string) _ _ _ _ bulk-Follows (
            Follows-if (c == type_array) _ _ _ _
              (Follows-bind read_array_length (array_data next) (skip_items pass) items-Follows)
              (Follows-fail (unknown_type c) _))))

value-Follows : (f : ℕ) → Follows (read_value f) (skip_value f)
unfolding read_value skip_value
value-Follows zero = Follows-fail _ _
value-Follows (suc f) =
    Follows-bind (map_err io read_byte) _ _
      (dispatch-Follows (read_value f) (skip_value f) (value-Follows f))

-- Where `ReadNext` returns a value, `Skip` succeeds on the same stream and leaves the same bytes.
pub skip-read_next :
    (s : Bytes) (v : Value) (t : Bytes) → read_next s ≡ (ok v, t) → skip s ≡ (ok tt, t)
unfolding read_next skip
skip-read_next s v t h = (value-Follows (suc (length s))).at s v t h
