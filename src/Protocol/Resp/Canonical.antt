-- ===== src/Protocol/Resp/Canonical.antt =====
-- What the reader returns is always a reply that the writer can send.
use redis_inmemory_replica.Base.{
  ℕ, zero, suc, ◌≤◌, ◌≡◌, refl, [], ◌++◌, Bytes, ok, ℤ, pos, Option, none, some, Bool, true, false,
  length, if◌then◌else◌,
}
use redis_inmemory_replica.Stream.{Stream, lift, read_byte, map_err, read_full}
use redis_inmemory_replica.Stream.Invert.{read_full-ok}
use redis_inmemory_replica.Stream.Gives.{
  Gives, Gives-pure, Gives-fail, Gives-lift, Gives-map_err, Gives-bind,
}
use redis_inmemory_replica.Protocol.Types.{
  Value, Values, value, nil, cons, type_simple_string, type_error, type_integer, type_bulk_string,
  type_array,
}
use redis_inmemory_replica.Protocol.Integer.{parse_int64}
use redis_inmemory_replica.Protocol.Reader.{
  Error, io, invalid_integer, unknown_type, out_of_fuel, parsed, max_bulk_size, max_array_size,
  read_line, read_simple_string, read_error, read_integer, bulk_data, read_bulk_string,
  read_bulk_length, expect_crlf, read_elements, array_data, read_array, read_array_length, dispatch,
  read_value, read_next,
}
use redis_inmemory_replica.Protocol.Reader.Sound.{
  read_line-IsLine, parsed-ok, parse_int64-IsInt64, Within, read_bulk_length-Within,
  read_array_length-Within,
}
use redis_inmemory_replica.Protocol.Integer.Exact.{IsInt64}
use redis_inmemory_replica.Protocol.Reader.Lines.{IsLine}
use redis_inmemory_replica.Protocol.Writer.{write_value}
use redis_inmemory_replica.Protocol.Resp.RoundTrip.{read_next-write_value}
use redis_inmemory_replica.Protocol.Resp.{Resp, Resps, to_value, to_values, count, Fits, AllFit}

-- The value stands for a reply that can be sent.
abbrev pub IsReply : Value → Type 0
IsReply v = (r : Resp) × (v ≡ to_value r) × Fits r

abbrev AreReplies : ℕ → Values → Type 0
AreReplies n vs = (rs : Resps) × (vs ≡ to_values rs) × (count rs ≡ n) × AllFit rs

IsReply-simple :
    (line : Bytes) → IsLine line → IsReply (value type_simple_string line (pos 0) nil false)
unfolding to_value
IsReply-simple line h = (Resp.simple line, refl, Fits.simple h)

IsReply-error : (line : Bytes) → IsLine line → IsReply (value type_error line (pos 0) nil false)
unfolding to_value
IsReply-error line h = (Resp.error line, refl, Fits.error h)

IsReply-number : (z : ℤ) → IsInt64 z → IsReply (value type_integer [] z nil false)
unfolding to_value
IsReply-number z h = (Resp.number z, refl, Fits.number h)

IsReply-bulk :
    (d : Bytes) → length d ≤ max_bulk_size → IsReply (value type_bulk_string d (pos 0) nil false)
unfolding to_value
IsReply-bulk d h = (Resp.bulk d, refl, Fits.bulk h)

IsReply-null_bulk : IsReply (value type_bulk_string [] (pos 0) nil true)
unfolding to_value
IsReply-null_bulk = (Resp.null_bulk, refl, Fits.null_bulk)

IsReply-null_array : IsReply (value type_array [] (pos 0) nil true)
unfolding to_value
IsReply-null_array = (Resp.null_array, refl, Fits.null_array)

IsReply-items :
    (n : ℕ) (vs : Values)
    → n ≤ max_array_size
    → AreReplies n vs
    → IsReply (value type_array [] (pos 0) vs false)
unfolding to_value
IsReply-items n vs h (rs, e, k, fits) = (Resp.items rs, cc, Fits.items (rw k h) fits)

replies-none : AreReplies 0 nil
unfolding to_value
replies-none = (Resps.none, refl, refl, AllFit.none)

replies-more :
    (n : ℕ) (v : Value) (vs : Values) → IsReply v → AreReplies n vs → AreReplies (suc n) (cons v vs)
unfolding to_value
replies-more n v vs (r, e, h) (rs, es, k, hs) = (Resps.more r rs, cc, cc, AllFit.more h hs)

simple-IsReply : Gives IsReply read_simple_string
unfolding read_simple_string
simple-IsReply =
    Gives-bind IsLine IsReply read_line _ read_line-IsLine
      λ line h. Gives-pure IsReply _ (IsReply-simple line h)

error-IsReply : Gives IsReply read_error
unfolding read_error
error-IsReply =
    Gives-bind IsLine IsReply read_line _ read_line-IsLine
      λ line h. Gives-pure IsReply _ (IsReply-error line h)

integer-IsReply : Gives IsReply read_integer
unfolding read_integer
integer-IsReply = Gives-bind IsLine IsReply read_line _ read_line-IsLine λ line _.
    Gives-bind IsInt64 IsReply (lift (parsed (invalid_integer line) (parse_int64 line))) _
      (Gives-lift IsInt64 _ λ z h. parse_int64-IsInt64 line z (parsed-ok _ _ z h))
      λ z h. Gives-pure IsReply _ (IsReply-number z h)

read_full-length : (n : ℕ) → Gives (λ d. length d ≡ n) (read_full n)
read_full-length n = record { at = λ s d t h. (read_full-ok n s d t h).0 }

anything : {A : Type 0} (m : Stream Error A) → Gives (λ _. Unit {0}) m
anything m = record { at = λ s a t h. tt }

bulk_data-IsReply : (n : Option ℕ) → Within max_bulk_size n → Gives IsReply (bulk_data n)
bulk_data-IsReply none h = Gives-pure IsReply _ IsReply-null_bulk
bulk_data-IsReply (some n) h =
    Gives-bind (λ d. length d ≡ n) IsReply (map_err io (read_full n)) _
      (Gives-map_err _ io (read_full n) (read_full-length n))
      λ d e.
        Gives-bind (λ _. Unit) IsReply expect_crlf _ (anything expect_crlf)
          λ _ _. Gives-pure IsReply _ (IsReply-bulk d (rw e h))

bulk-IsReply : Gives IsReply read_bulk_string
unfolding read_bulk_string
bulk-IsReply =
    Gives-bind (Within max_bulk_size) IsReply read_bulk_length bulk_data read_bulk_length-Within
      bulk_data-IsReply

elements-AreReplies :
    (next : Stream Error Value) (n : ℕ)
    → Gives IsReply next
    → Gives (AreReplies n) (read_elements next n)
unfolding read_elements
elements-AreReplies next zero h = Gives-pure (AreReplies 0) nil replies-none
elements-AreReplies next (suc n) h = Gives-bind IsReply (AreReplies (suc n)) next _ h λ v hv.
    Gives-bind (AreReplies n) (AreReplies (suc n)) (read_elements next n) _
      (elements-AreReplies next n h)
      λ vs hvs. Gives-pure (AreReplies (suc n)) (cons v vs) (replies-more n v vs hv hvs)

array_data-IsReply :
    (next : Stream Error Value) (n : Option ℕ)
    → Gives IsReply next
    → Within max_array_size n
    → Gives IsReply (array_data next n)
array_data-IsReply next none h k = Gives-pure IsReply _ IsReply-null_array
array_data-IsReply next (some n) h k =
    Gives-bind (AreReplies n) IsReply (read_elements next n) _ (elements-AreReplies next n h)
      λ vs hvs. Gives-pure IsReply _ (IsReply-items n vs k hvs)

array-IsReply : (next : Stream Error Value) → Gives IsReply next → Gives IsReply (read_array next)
unfolding read_array
array-IsReply next h =
    Gives-bind (Within max_array_size) IsReply read_array_length (array_data next)
      read_array_length-Within λ n k. array_data-IsReply next n h k

Gives-if :
    {E A : Type 0} (P : A → Type 0) (b : Bool) (m n : Stream E A)
    → Gives P m
    → Gives P n
    → Gives P (if b then m else n)
Gives-if P true m n hm hn = hm
Gives-if P false m n hm hn = hn

dispatch-IsReply :
    (next : Stream Error Value) (c : ℕ) → Gives IsReply next → Gives IsReply (dispatch next c)
unfolding dispatch
dispatch-IsReply next c h = Gives-if IsReply _ _ _ simple-IsReply (
    Gives-if IsReply _ _ _ error-IsReply (
      Gives-if IsReply _ _ _ integer-IsReply (
        Gives-if IsReply _ _ _ bulk-IsReply
          (Gives-if IsReply _ _ _ (array-IsReply next h) (Gives-fail IsReply (unknown_type c))))))

read_value-IsReply : (f : ℕ) → Gives IsReply (read_value f)
unfolding read_value
read_value-IsReply zero = Gives-fail IsReply out_of_fuel
read_value-IsReply (suc f) =
    Gives-bind (λ _. Unit) IsReply (map_err io read_byte) _ (anything (map_err io read_byte))
      λ c _. dispatch-IsReply (read_value f) c (read_value-IsReply f)

-- Whatever the stream holds, a value that `ReadNext` returns is a reply within the limits of the
-- protocol: a line without a line feed, a 64-bit integer, a bulk string or an array of such within
-- the size limits, or a null.
pub read_next-IsReply : (s : Bytes) (v : Value) (t : Bytes) → read_next s ≡ (ok v, t) → IsReply v
unfolding read_next
read_next-IsReply s v t h = (read_value-IsReply (suc (length s))).at s v t h

-- A value that `ReadNext` has returned can be written, and reading what was written gives the same
-- value again and leaves what follows it.
pub reread :
    (s : Bytes) (v : Value) (t rest : Bytes)
    → read_next s ≡ (ok v, t)
    → (sent : Bytes) × (write_value v ≡ some sent) × (read_next (sent ++ rest) ≡ (ok v, rest))
reread s v t rest h =
    let (r, e, fits) = read_next-IsReply s v t h in
    let (sent, written, back) = read_next-write_value r rest fits in
    (sent, rw e written, rw (e, back))
