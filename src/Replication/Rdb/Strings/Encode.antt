-- ===== src/Replication/Rdb/Strings/Encode.antt =====
-- The RDB encodings of lengths and strings, written out on their own, and the reader at them.
use redis_inmemory_replica.Base.{
  ℕ, ◌+◌, ◌*◌, ◌/◌, ◌%◌, ◌^◌, ◌≤◌, ◌<◌, ◌≡◌, refl, ap, ◌∙◌, false, inl, inr, List, [], ◌∷◌, ◌++◌,
  Bytes, ok, length, ltb, ◌==◌, Bool-cases, arith, if◌then◌else◌,
}
use mathlib.Core.List.{append_assoc}
use redis_inmemory_replica.Stream.{read_byte}
use redis_inmemory_replica.Stream.Consume.{read_full-append}
use redis_inmemory_replica.Protocol.Integer.{decimal, format_int}
use redis_inmemory_replica.Replication.Lzf.Encode.{Token, encode, Expands, lzf_decompress-encode}
use redis_inmemory_replica.Replication.Rdb.{VersionStrategy, little_endian, big_endian}
use redis_inmemory_replica.Replication.Rdb.Strings.{
  read_little, read_big, next_byte, read_length, max_string, read_string_data, signed32,
  read_lzf_string, read_string,
}

abbrev pub big_bytes : ℕ → Bytes
big_bytes n = n / 2 ^ 24 ∷ n / 2 ^ 16 % 256 ∷ n / 2 ^ 8 % 256 ∷ n % 256 ∷ []

-- The shortest encoding of a length.
unfoldable pub encode_length : ℕ → Bytes
encode_length n =
    if ltb n 64
    then n ∷ []
    else if ltb n 16384
    then (64 + n / 256) ∷ n % 256 ∷ []
    else 128 ∷ big_bytes n

big_endian-big_bytes : (n : ℕ) → n < 2 ^ 32 → big_endian (big_bytes n) ≡ n
big_endian-big_bytes n h = omega arith

read_big-big_bytes :
    (k n : ℕ) (rest : Bytes) → n < 2 ^ 32 → read_big 4 (k, big_bytes n ++ rest) ≡ (ok n, (k, rest))
unfolding read_big
read_big-big_bytes k n rest h =
    rw (read_full-append (big_bytes n) rest)
      (ap (λ m. (ok m, (k, rest))) (big_endian-big_bytes n h))

pub read_length-encode_length :
    (k n : ℕ) (rest : Bytes)
    → n < 2 ^ 32
    → read_length (k, encode_length n ++ rest) ≡ (ok n, (k, rest))
unfolding read_length encode_length next_byte read_byte
read_length-encode_length k n rest h = elim (Bool-cases (ltb n 64)) [
  | inl small ↦
      let a : n / 64 ≡ 0 = ground arith in
      let b : n % 64 ≡ n = ground arith in rw (small, a, b) refl
  | inr large ↦ elim (Bool-cases (ltb n 16384)) [
    | inl middle ↦
        let a : (64 + n / 256) / 64 ≡ 1 = ground arith in
        let b : (64 + n / 256) % 64 * 256 + n % 256 ≡ n = ground arith in
        rw (large, middle, a) (ap (λ m. (ok m, (k, rest))) b)
    | inr huge ↦ rw (large, huge) (read_big-big_bytes k n rest h)
  ]
]

-- A string as it stands, compressed, or as an integer of 32, 8 or 16 bits.
pub data Text : Type 0 where
  plain : Bytes → Text
  packed : Token → List Token → Bytes → Text
  number byte_number short_number : ℕ → Text

abbrev pub text_of : Text → Bytes
text_of (plain d) = d
text_of (packed t ts r) = r
text_of (number w) = format_int (signed32 w)
text_of (byte_number w) = decimal w
text_of (short_number w) = decimal w

-- What fits: strings of at most 100000 bytes as they stand, compressed ones whose tokens expand to the
-- text, patterns of 32 bits, and integers of 8 and 16 bits that are not negative: the source reads a
-- negative one as another number.
abbrev pub IsText : Text → Type 0
IsText (plain d) = length d ≤ max_string
IsText (packed t ts r) =
    Expands [] (t ∷ ts) r × (length (encode (t ∷ ts)) < 2 ^ 32) × (length r < 2 ^ 32)
IsText (number w) = w < 2 ^ 32
IsText (byte_number w) = w < 2 ^ 7
IsText (short_number w) = w < 2 ^ 15

abbrev pub little_bytes : ℕ → Bytes
little_bytes n = n % 256 ∷ n / 2 ^ 8 % 256 ∷ n / 2 ^ 16 % 256 ∷ n / 2 ^ 24 ∷ []

abbrev short_bytes : ℕ → Bytes
short_bytes n = n % 256 ∷ n / 2 ^ 8 ∷ []

unfoldable pub encode_text : Text → Bytes
unfolding encode_length
encode_text (plain d) = encode_length (length d) ++ d
encode_text (packed t ts r) =
    195
    ∷ (encode_length (length (encode (t ∷ ts))) ++ (encode_length (length r) ++ encode (t ∷ ts)))
encode_text (number w) = 194 ∷ little_bytes w
encode_text (byte_number w) = 192 ∷ w ∷ []
encode_text (short_number w) = 193 ∷ short_bytes w

read_string_data-append :
    (k : ℕ) (d rest : Bytes)
    → length d ≤ max_string
    → read_string_data (length d) (k, d ++ rest) ≡ (ok d, (k, rest))
unfolding read_string_data
read_string_data-append k [] rest h = refl
read_string_data-append k (c ∷ d) rest h =
    let a : ltb max_string (length (c ∷ d)) ≡ false = ground arith in
    let b : (length (c ∷ d) == 0) ≡ false = ground arith in
    rw (b, a, read_full-append (c ∷ d) rest) refl

little_endian-little_bytes : (n : ℕ) → n < 2 ^ 32 → little_endian (little_bytes n) ≡ n
little_endian-little_bytes n h = omega arith

pub read_little-append :
    (k : ℕ) (bytes rest : Bytes)
    → read_little (length bytes) (k, bytes ++ rest) ≡ (ok (little_endian bytes), (k, rest))
unfolding read_little
read_little-append k bytes rest = rw (read_full-append bytes rest) refl

pub read_little-little_bytes :
    (k n : ℕ) (rest : Bytes)
    → n < 2 ^ 32
    → read_little 4 (k, little_bytes n ++ rest) ≡ (ok n, (k, rest))
read_little-little_bytes k n rest h =
    read_little-append k (little_bytes n) rest
    ∙ ap (λ m. (ok m, (k, rest))) (little_endian-little_bytes n h)

read_little-short_bytes :
    (k n : ℕ) (rest : Bytes)
    → n < 2 ^ 15
    → read_little 2 (k, short_bytes n ++ rest) ≡ (ok n, (k, rest))
read_little-short_bytes k n rest h =
    let e : little_endian (short_bytes n) ≡ n = omega arith in
    read_little-append k (short_bytes n) rest ∙ ap (λ m. (ok m, (k, rest))) e

module _ (strategy : VersionStrategy) where
  read_string-plain :
      (k : ℕ) (d rest : Bytes)
      → length d ≤ max_string
      → read_string strategy (k, encode_length (length d) ++ (d ++ rest)) ≡ (ok d, (k, rest))
  unfolding read_string encode_length next_byte read_byte
  read_string-plain k d rest h = elim (Bool-cases (ltb (length d) 64)) [
    | inl small ↦
        let a : length d / 64 ≡ 0 = ground arith in
        let b : length d % 64 ≡ length d = ground arith in
        rw (small, a, b) (read_string_data-append k d rest h)
    | inr large ↦ elim (Bool-cases (ltb (length d) 16384)) [
      | inl middle ↦
          let a : (64 + length d / 256) / 64 ≡ 1 = ground arith in
          let b : (64 + length d / 256) % 64 * 256 + length d % 256 ≡ length d = ground arith in
          rw (large, middle, a, b) (read_string_data-append k d rest h)
      | inr huge ↦
          rw (large, huge, read_big-big_bytes k (length d) (d ++ rest) (omega arith))
            (read_string_data-append k d rest h)
    ]
  ]

  read_lzf_string-packed :
      (k : ℕ) (t : Token) (ts : List Token) (r rest : Bytes)
      → IsText (packed t ts r)
      → read_lzf_string strategy (
        k,
        encode_length (length (encode (t ∷ ts)))
            ++ (encode_length (length r) ++ (encode (t ∷ ts) ++ rest)),
      )
        ≡ (ok r, (k, rest))
  unfolding read_lzf_string
  read_lzf_string-packed k t ts r rest (e, h, i) =
      rw
        (
          read_length-encode_length k (length (encode (t ∷ ts)))
              (encode_length (length r) ++ (encode (t ∷ ts) ++ rest)) h,
          read_length-encode_length k (length r) (encode (t ∷ ts) ++ rest) i,
          read_full-append (encode (t ∷ ts)) rest,
          lzf_decompress-encode t ts r e,
        )
        refl

  -- A string that was encoded is read back, and what follows it is left: one as it stands, of at most
  -- 100000 bytes, a compressed one, a 32-bit integer, or an 8-bit or 16-bit one that is not negative.
  pub read_string-encode_text :
      (k : ℕ) (t : Text) (rest : Bytes)
      → IsText t
      → read_string strategy (k, encode_text t ++ rest) ≡ (ok (text_of t), (k, rest))
  unfolding encode_text
  read_string-encode_text k (plain d) rest h =
      rw (append_assoc (encode_length (length d)) d rest) (read_string-plain k d rest h)
  read_string-encode_text k (packed t ts r) rest h =
      let c = encode (t ∷ ts) in
      let e : (encode_length (length c) ++ (encode_length (length r) ++ c)) ++ rest
          ≡ encode_length (length c) ++ (encode_length (length r) ++ (c ++ rest)) =
        append_assoc (encode_length (length c)) (encode_length (length r) ++ c) rest
        ∙ ap (λ u. encode_length (length c) ++ u)
            (append_assoc (encode_length (length r)) c rest) in
      rw e (unfold read_string next_byte read_byte in read_lzf_string-packed k t ts r rest h)
  read_string-encode_text k (number w) rest h =
      unfold read_string next_byte read_byte in rw (read_little-little_bytes k w rest h) refl
  read_string-encode_text k (byte_number w) rest h = unfold read_string next_byte read_byte in refl
  read_string-encode_text k (short_number w) rest h =
      unfold read_string next_byte read_byte in rw (read_little-short_bytes k w rest h) refl
