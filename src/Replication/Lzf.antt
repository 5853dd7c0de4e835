-- ===== src/Replication/Lzf.antt =====
-- replication/lzf.go. The result buffer is the bytes written so far, so `resultPos` is its length;
-- the compressed bytes from `compressedPos` on are the list that is left. The source reads no byte
-- of the buffer at or above `resultPos`. Bytes are numbers below 256.
pub mod Bounds
pub mod Encode
pub mod Window
use redis_inmemory_replica.Base.{
  ℕ, zero, suc, ◌+◌, ◌-◌, ◌*◌, ◌/◌, ◌%◌, Bool, List, [], ◌∷◌, ◌++◌, Bytes, Result, ok, err, Option,
  none, some, length, take, drop, get_elem?, ltb, leb, ◌==◌, if◌then◌else◌,
}

pub data LzfError : Type 0 where
  not_enough_literal_data output_buffer_overflow missing_extended_length missing_offset
        invalid_offset :
      LzfError
  size_mismatch : ℕ → LzfError
  -- of the model only
  out_of_fuel read_out_of_range : LzfError

-- `result[resultPos] = result[backRefPos]`, once for each byte of the match.
unfoldable pub copy_back : ℕ → ℕ → Bytes → Result LzfError Bytes
copy_back zero back out = ok out
copy_back (suc n) back out = elim (get_elem? out back) [
  | none ↦ err read_out_of_range
  | some b ↦ copy_back n (suc back) (out ++ b ∷ [])
]

-- A literal run: `ctrl + 1` bytes.
unfoldable pub literal_run : ℕ → ℕ → Bytes → Bytes → Result LzfError (Bytes × Bytes)
literal_run limit ctrl input out =
    let n = ctrl + 1 in
    if ltb (length input) n
    then err not_enough_literal_data
    else if ltb limit (length out + n)
    then err output_buffer_overflow
    else ok (drop n input, out ++ take n input)

abbrev pub copied : Bytes → Result LzfError Bytes → Result LzfError (Bytes × Bytes)
copied input (ok out) = ok (input, out)
copied input (err e) = err e

-- The offset byte of a back reference of `n` bytes.
unfoldable pub back_copy : ℕ → ℕ → ℕ → Bytes → Bytes → Result LzfError (Bytes × Bytes)
unfolding copy_back
back_copy limit n ctrl [] out = err missing_offset
back_copy limit n ctrl (b ∷ input) out =
    let offset = ctrl % 32 * 256 + b + 1 in
    if ltb (length out) offset
    then err invalid_offset
    else if ltb limit (length out + n)
    then err output_buffer_overflow
    else copied input (copy_back n (length out - offset) out)

abbrev pub extended : ℕ → ℕ → Bytes → Bytes → Result LzfError (Bytes × Bytes)
extended limit ctrl [] out = err missing_extended_length
extended limit ctrl (b ∷ input) out = back_copy limit (7 + b + 2) ctrl input out

-- The length is the three high bits, and the next byte more where these are all ones.
unfoldable pub back_reference : ℕ → ℕ → Bytes → Bytes → Result LzfError (Bytes × Bytes)
unfolding back_copy
back_reference limit ctrl input out =
    if ctrl / 32 == 7
    then extended limit ctrl input out
    else back_copy limit (ctrl / 32 + 2) ctrl input out

unfoldable pub item : ℕ → ℕ → Bytes → Bytes → Result LzfError (Bytes × Bytes)
unfolding literal_run back_reference
item limit ctrl input out =
    if ltb ctrl 32 then literal_run limit ctrl input out else back_reference limit ctrl input out

abbrev pub finish : ℕ → Bytes → Result LzfError Bytes
finish limit out = if length out == limit then ok out else err (size_mismatch (length out))

-- The loop `for compressedPos < len(compressed) && resultPos < uncompressedLen`, and the check
-- behind it.
unfoldable pub loop : ℕ → ℕ → Bytes → Bytes → Result LzfError Bytes
unfolding item
loop zero limit input out = err out_of_fuel
loop (suc f) limit [] out = finish limit out
loop (suc f) limit (ctrl ∷ input) out =
    let next : Result LzfError Bytes = elim (item limit ctrl input out) [
      | ok (input', out') ↦ loop f limit input' out'
      | err e ↦ err e
    ] in
    if ltb (length out) limit then next else finish limit out

-- `lzfDecompress`: empty data gives the empty result, whatever length is expected.
unfoldable pub lzf_decompress : Bytes → ℕ → Result LzfError Bytes
unfolding loop
lzf_decompress [] limit = ok []
lzf_decompress (c ∷ compressed) limit =
    loop (suc (length (c ∷ compressed))) limit (c ∷ compressed) []
