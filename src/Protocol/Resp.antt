-- ===== src/Protocol/Resp.antt =====
-- The replies of the protocol, one constructor for each shape, as the specification of the wire
-- format: which `Value`s stand for a reply, and what both ends agree on.
pub mod RoundTrip
pub mod Canonical
use redis_inmemory_replica.Base.{ℕ, suc, ◌≤◌, true, false, [], Bytes, ℤ, pos, length}
use redis_inmemory_replica.Protocol.Types.{
  Value, Values, value, nil, cons, type_simple_string, type_error, type_integer, type_bulk_string,
  type_array,
}
use redis_inmemory_replica.Protocol.Integer.Exact.{IsInt64}
use redis_inmemory_replica.Protocol.Reader.{max_bulk_size, max_array_size}
use redis_inmemory_replica.Protocol.Reader.Lines.{IsLine}

mutual
  pub data Resp : Type 0 where
    simple error bulk : Bytes → Resp
    number : ℤ → Resp
    null_bulk null_array : Resp
    items : Resps → Resp

  pub data Resps : Type 0 where
    none : Resps
    more : Resp → Resps → Resps

unfoldable mutual
  pub to_value : Resp → Value
  to_value (simple d) = value type_simple_string d (pos 0) nil false
  to_value (error d) = value type_error d (pos 0) nil false
  to_value (bulk d) = value type_bulk_string d (pos 0) nil false
  to_value (number z) = value type_integer [] z nil false
  to_value null_bulk = value type_bulk_string [] (pos 0) nil true
  to_value null_array = value type_array [] (pos 0) nil true
  to_value (items rs) = value type_array [] (pos 0) (to_values rs) false

  pub to_values : Resps → Values
  to_values none = nil
  to_values (more r rs) = cons (to_value r) (to_values rs)

abbrev pub count : Resps → ℕ
count none = 0
count (more r rs) = suc (count rs)

-- What can be sent: lines without a line feed, integers of 64 bits, and lengths within the limits.
mutual
  pub data Fits : Resp → Type 0 where
    simple : {d : Bytes} → IsLine d → Fits (Resp.simple d)
    error : {d : Bytes} → IsLine d → Fits (Resp.error d)
    bulk : {d : Bytes} → length d ≤ max_bulk_size → Fits (Resp.bulk d)
    number : {z : ℤ} → IsInt64 z → Fits (Resp.number z)
    null_bulk : Fits Resp.null_bulk
    null_array : Fits Resp.null_array
    items : {rs : Resps} → count rs ≤ max_array_size → AllFit rs → Fits (Resp.items rs)

  pub data AllFit : Resps → Type 0 where
    none : AllFit Resps.none
    more : {r : Resp} {rs : Resps} → Fits r → AllFit rs → AllFit (Resps.more r rs)
