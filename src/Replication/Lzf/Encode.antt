-- ===== src/Replication/Lzf/Encode.antt =====
-- The LZF format as tokens, and the decoder at the bytes of a sequence of tokens.
use redis_inmemory_replica.Base.{
  ℕ, zero, suc, ◌+◌, ◌-◌, ◌*◌, ◌/◌, ◌%◌, ◌≤◌, ◌<◌, ◌≡◌, refl, ◌∙◌, false, List, [], ◌∷◌, ◌++◌,
  Bytes, ok, length, length-append, take-append, drop-append, arith, lt→ltb, ltb→lt, Bool-cases,
  inl, inr, ltb, ◌==◌, if◌then◌else◌,
}
use redis_inmemory_replica.Replication.Lzf.{
  copy_back, literal_run, back_copy, back_reference, item, loop, lzf_decompress,
}
use redis_inmemory_replica.Replication.Lzf.Window.{IsCopy, IsCopy-unique, copy_back-IsCopy}

-- A run of literal bytes, or a match of a length at a distance.
pub data Token : Type 0 where
  literal : Bytes → Token
  match : ℕ → ℕ → Token

-- Matches up to 8 bytes take two bytes, longer ones three.
abbrev match_bytes : ℕ → ℕ → Bytes
match_bytes n offset =
    let high = (offset - 1) / 256 in
    let low = (offset - 1) % 256 in
    if ltb n 9 then ((n - 2) * 32 + high) ∷ low ∷ [] else (7 * 32 + high) ∷ (n - 9) ∷ low ∷ []

unfoldable pub encode_token : Token → Bytes
encode_token (literal text) = (length text - 1) ∷ text
encode_token (match n offset) = match_bytes n offset

unfoldable pub encode : List Token → Bytes
unfolding encode_token
encode [] = []
encode (t ∷ ts) = encode_token t ++ encode ts

-- The limits of the format: 1 to 32 literal bytes, matches of 3 to 264 bytes at a distance of at most
-- 8192. (A control byte below 32 is a literal run, so no match has length 2.)
abbrev pub IsToken : Token → Type 0
IsToken (literal text) = (0 < length text) × (length text ≤ 32)
IsToken (match n offset) = (3 ≤ n) × (n ≤ 264) × (0 < offset) × (offset ≤ 8192)

-- What a sequence of tokens means: `r` is what they make of `out`. A match reaches back into what
-- has been written before it.
pub data Expands : Bytes → List Token → Bytes → Type 0 where
  done : {out : Bytes} → Expands out [] out
  literal :
      {out text r : Bytes} {ts : List Token}
      → IsToken (Token.literal text)
      → Expands (out ++ text) ts r
      → Expands out (Token.literal text ∷ ts) r
  match :
      {n offset : ℕ} {out next r : Bytes} {ts : List Token}
      → IsToken (Token.match n offset)
      → offset ≤ length out
      → IsCopy n (length out - offset) out next
      → Expands next ts r
      → Expands out (Token.match n offset ∷ ts) r

Expands-length : {out r : Bytes} {ts : List Token} → Expands out ts r → length out ≤ length r
Expands-length done = omega arith
Expands-length (literal {out = o} {text = t} h e) =
    omega (arith, length-append o t, Expands-length e)
Expands-length (match h k c e) = omega (arith, c.size, Expands-length e)

item-literal :
    (limit : ℕ) (text rest out : Bytes)
    → 0 < length text
    → length text ≤ 32
    → length out + length text ≤ limit
    → item limit (length text - 1) (text ++ rest) out ≡ ok (rest, out ++ text)
unfolding item literal_run
item-literal limit text rest out h k room =
    let n : length text - 1 + 1 ≡ length text = omega arith in
    rw (n, drop-append text rest, take-append text rest, length-append text rest) (ground arith)

back_copy-run :
    (limit n ctrl low offset : ℕ) (rest out next : Bytes)
    → ctrl % 32 * 256 + low + 1 ≡ offset
    → offset ≤ length out
    → length out + n ≤ limit
    → copy_back n (length out - offset) out ≡ ok next
    → back_copy limit n ctrl (low ∷ rest) out ≡ ok (rest, next)
unfolding back_copy
back_copy-run limit n ctrl low offset rest out next e h room run = rw e (ground (arith, run))

module _ (limit n offset : ℕ) (rest out next : Bytes) (t : IsToken (Token.match n offset))
    (near : offset ≤ length out) (room : length out + n ≤ limit)
    (run : copy_back n (length out - offset) out ≡ ok next) where
  item-short :
      n < 9
      → item limit ((n - 2) * 32 + (offset - 1) / 256) ((offset - 1) % 256 ∷ rest) out
        ≡ ok (rest, next)
  unfolding item back_reference
  item-short h =
      let ctrl = (n - 2) * 32 + (offset - 1) / 256 in
      let high : ctrl / 32 ≡ n - 2 = omega arith in
      let is_match : ltb ctrl 32 ≡ false = ground arith in
      let is_short : (n - 2 == 7) ≡ false = ground arith in
      let size : n - 2 + 2 ≡ n = omega arith in
      rw (is_match, high, is_short, size)
        (back_copy-run limit n ctrl ((offset - 1) % 256) offset rest out next (omega arith) near
          room run)

  item-long :
      8 < n
      → item limit (7 * 32 + (offset - 1) / 256) ((n - 9) ∷ (offset - 1) % 256 ∷ rest) out
        ≡ ok (rest, next)
  unfolding item back_reference
  item-long h =
      let ctrl = 7 * 32 + (offset - 1) / 256 in
      let high : ctrl / 32 ≡ 7 = omega arith in
      let is_match : ltb ctrl 32 ≡ false = ground arith in
      let size : 7 + (n - 9) + 2 ≡ n = omega arith in
      rw (is_match, high, size)
        (back_copy-run limit n ctrl ((offset - 1) % 256) offset rest out next (omega arith) near
          room run)

-- One round of the loop.
loop-step :
    (f limit ctrl : ℕ) (input out rest next : Bytes)
    → length out < limit
    → item limit ctrl input out ≡ ok (rest, next)
    → loop (suc f) limit (ctrl ∷ input) out ≡ loop f limit rest next
unfolding loop
loop-step f limit ctrl input out rest next h e = rw (lt→ltb (length out) limit h, e)

loop-match :
    (f limit n offset : ℕ) (rest out next : Bytes)
    → IsToken (Token.match n offset)
    → offset ≤ length out
    → length out + n ≤ limit
    → copy_back n (length out - offset) out ≡ ok next
    → loop (suc f) limit (encode_token (Token.match n offset) ++ rest) out ≡ loop f limit rest next
unfolding encode_token
loop-match f limit n offset rest out next t near room run = elim (Bool-cases (ltb n 9)) [
  | inl short ↦ rw short (
      loop-step f limit _ _ out rest next (omega arith)
        (item-short limit n offset rest out next t near room run (ltb→lt n 9 short)))
  | inr long ↦ rw long (
      loop-step f limit _ _ out rest next (omega arith)
        (item-long limit n offset rest out next t near room run (ground arith)))
]

loop-literal :
    (f limit : ℕ) (text rest out : Bytes)
    → IsToken (Token.literal text)
    → length out + length text ≤ limit
    → loop (suc f) limit (encode_token (Token.literal text) ++ rest) out
      ≡ loop f limit rest (out ++ text)
unfolding encode_token
loop-literal f limit text rest out (h, k) room =
    loop-step f limit (length text - 1) (text ++ rest) out rest (out ++ text) (omega arith)
      (item-literal limit text rest out h k room)

loop-end : (f : ℕ) (out : Bytes) → loop (suc f) (length out) [] out ≡ ok out
unfolding loop
loop-end f out = ground arith

encode_token-pos : (t : Token) → 0 < length (encode_token t)
unfolding encode_token
encode_token-pos (literal text) = omega arith
encode_token-pos (match n offset) = ground arith

encode-cons : (t : Token) (ts : List Token) → encode (t ∷ ts) ≡ encode_token t ++ encode ts
unfolding encode
encode-cons t ts = refl

encode-nil : encode [] ≡ []
unfolding encode
encode-nil = refl

-- One more than the tokens is fuel enough.
loop-encode :
    {out r : Bytes} {ts : List Token} (f : ℕ)
    → Expands out ts r
    → length ts ≤ f
    → loop (suc f) (length r) (encode ts) out ≡ ok r
loop-encode f (done {out = o}) h = rw encode-nil (loop-end f o)
loop-encode zero (literal t e) h = absurd (omega arith)
loop-encode zero (match t k c e) h = absurd (omega arith)
loop-encode (suc f) (literal {out = o} {text = w} {r = r} {ts = ts} t e) h = rw encode-cons (
    loop-literal (suc f) (length r) w (encode ts) o t
      (omega (arith, Expands-length e, length-append o w))
    ∙ loop-encode f e (omega arith))
loop-encode (suc f) (match {n = n} {offset = d} {out = o} {next = x} {r = r} {ts = ts} t k c e) h =
    let (y, run, c') = copy_back-IsCopy n (length o - d) o (omega arith) in
    let same : y ≡ x = IsCopy-unique n (length o - d) o y x (omega arith) c' c in
    let run' : copy_back n (length o - d) o ≡ ok x = rw same at run in
    rw encode-cons (
      loop-match (suc f) (length r) n d (encode ts) o x t k
        (omega (arith, Expands-length e, c.size)) run'
      ∙ loop-encode f e (omega arith))

encode-length : (ts : List Token) → length ts ≤ length (encode ts)
encode-length [] = omega arith
encode-length (t ∷ ts) = rw encode-cons (
    omega (arith, encode-length ts, encode_token-pos t, length-append (encode_token t) (encode ts)))

lzf_decompress-loop :
    (compressed : Bytes) (limit : ℕ)
    → 0 < length compressed
    → lzf_decompress compressed limit ≡ loop (suc (length compressed)) limit compressed []
unfolding lzf_decompress
lzf_decompress-loop [] limit h = elim h [ ]
lzf_decompress-loop (c ∷ compressed) limit h = refl

-- The decoder inverts every encoding in the LZF format: where tokens expand to a text, the decoder
-- gives that text from their bytes and its length.
pub lzf_decompress-encode :
    (t : Token) (ts : List Token) (r : Bytes)
    → Expands [] (t ∷ ts) r
    → lzf_decompress (encode (t ∷ ts)) (length r) ≡ ok r
lzf_decompress-encode t ts r e =
    lzf_decompress-loop (encode (t ∷ ts)) (length r) (omega (arith, encode-length (t ∷ ts)))
    ∙ loop-encode (length (encode (t ∷ ts))) e (encode-length (t ∷ ts))
