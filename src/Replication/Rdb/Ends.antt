-- ===== src/Replication/Rdb/Ends.antt =====
-- No read of the RDB parser makes the input longer, and none runs out of fuel.
pub mod Values
pub mod Parsing
use redis_inmemory_replica.Base.{
  ℕ, zero, suc, ◌+◌, ◌/◌, ◌%◌, ◌*◌, ◌≤◌, ◌<◌, ◌≡◌, refl, Bool, true, false, inl, inr, List, [], ◌∷◌,
  ◌++◌, Bytes, Result, ok, err, Option, none, some, length, drop, length-drop, Bool-cases, arith,
  ltb, leb, ◌==◌, if◌then◌else◌,
}
use redis_inmemory_replica.Stream.{Stream, IoError, read_byte, read_full, lift}
use redis_inmemory_replica.Storage.Map.{Map, insert, bytes_key}
use redis_inmemory_replica.Replication.Handler.{
  RdbValue, string_value, hash_value, list_value, set_value,
}
use redis_inmemory_replica.Replication.Lzf.{lzf_decompress}
use redis_inmemory_replica.Replication.Rdb.{
  VersionStrategy, RdbError, io, out_of_fuel, Input, Read, pure, fail, counted, stream, wrapped,
  wrap, continue, ◌>>=◌, ◌>>◌, can_skip, rescued, rescue, invalid_special_length, string_too_large,
  unsupported_encoding, unsupported_type,
}
use redis_inmemory_replica.Replication.Rdb.Strings.{
  read_little, read_big, next_byte, special_length, length_from, read_length, read_string_data,
  decompressed, read_lzf_string, special_string, string_from, read_string, placeholder, max_string,
}
use redis_inmemory_replica.Replication.Rdb.Values.{
  read_list, read_set, read_hash, node, read_nodes, read_quicklist, skip_strings, skip_stream_data,
  skip_string, discard_data, skip_encoded, skip_unknown, lenient, skip_unsupported_type, read_value,
  is_stream_type, type_string, type_list, type_set, type_hash, type_list_quicklist,
}

-- An error of the parser, not of the model.
abbrev pub IsReal : RdbError → Type 0
IsReal out_of_fuel = ⊥
IsReal e = Unit

module _ {A : Type 0} where
  abbrev pub Fine : ℕ → Result RdbError A × Input → Type 0
  Fine n (ok a, (k, s)) = length s ≤ n
  Fine n (err e, (k, s)) = (length s ≤ n) × IsReal e

  pub Fine-mono : (m n : ℕ) (r : Result RdbError A × Input) → m ≤ n → Fine m r → Fine n r
  Fine-mono m n (ok a, (k, s)) h f = omega arith
  Fine-mono m n (err e, (k, s)) h f = (omega arith, f.1)

  pub record Ends (m : Read A) : Type 0 where
    pub at : (k : ℕ) (s : Bytes) → Fine (length s) (m (k, s))

  pub Ends-pure : (a : A) → Ends (pure a)
  Ends-pure a = record { at = λ k s. omega arith }

  pub Ends-fail : (e : RdbError) → IsReal e → Ends (fail e)
  Ends-fail e h = record { at = λ k s. (omega arith, h) }

  pub Ends-if : (b : Bool) (m n : Read A) → Ends m → Ends n → Ends (if b then m else n)
  Ends-if true m n p q = p
  Ends-if false m n p q = q

  wrapped-Fine :
      (f : RdbError → RdbError) (n : ℕ) (r : Result RdbError A × Input)
      → ((e : RdbError) → IsReal (f e))
      → Fine n r
      → Fine n (wrapped f r)
  wrapped-Fine f n (ok a, (k, s)) h p = p
  wrapped-Fine f n (err e, (k, s)) h p = (p.0, h e)

  pub Ends-wrap :
      (f : RdbError → RdbError) (m : Read A)
      → ((e : RdbError) → IsReal (f e))
      → Ends m
      → Ends (wrap f m)
  Ends-wrap f m h p = record { at = λ k s. wrapped-Fine f (length s) (m (k, s)) h (p.at k s) }

  module _ (strategy : VersionStrategy) where
    rescued-Fine :
        (instead : Read A) (n : ℕ) (r : Result RdbError A × Input)
        → Ends instead
        → Fine n r
        → Fine n (rescued strategy instead r)
    rescued-Fine instead n (ok a, (k, s)) q p = p
    rescued-Fine instead n (err e, (k, s)) q p = elim (Bool-cases (can_skip strategy k)) [
      | inl on ↦ rw on (Fine-mono (length s) n _ p.0 (q.at (suc k) s))
      | inr off ↦ rw off p
    ]

    pub Ends-rescue :
        (m instead : Read A) → Ends m → Ends instead → Ends (rescue strategy m instead)
    Ends-rescue m instead p q = record {
      at = λ k s. rescued-Fine instead (length s) (m (k, s)) q (p.at k s);
    }

module _ {A B : Type 0} where
  continue-Fine :
      (n : ℕ) (r : Result RdbError A × Input) (f : A → Read B)
      → Fine n r
      → ((a : A) → Ends (f a))
      → Fine n (continue r f)
  continue-Fine n (ok a, (k, s)) f p q = Fine-mono (length s) n (f a (k, s)) p ((q a).at k s)
  continue-Fine n (err e, (k, s)) f p q = p

  pub Ends-bind : (m : Read A) (f : A → Read B) → Ends m → ((a : A) → Ends (f a)) → Ends (m >>= f)
  Ends-bind m f p q = record { at = λ k s. continue-Fine (length s) (m (k, s)) f (p.at k s) q }

module _ {E A : Type 0} where
  -- An operation of the stream that does not make it longer.
  abbrev Short : Stream E A → Type 0
  Short m = (s : Bytes) → length ((m s).1) ≤ length s

  counted-Fine :
      (f : E → RdbError) (n k : ℕ) (r : Result E A × Bytes)
      → ((e : E) → IsReal (f e))
      → length (r.1) ≤ n
      → Fine n (counted f k r)
  counted-Fine f n k (ok a, s) h p = p
  counted-Fine f n k (err e, s) h p = (p, h e)

  pub Ends-stream :
      (f : E → RdbError) (m : Stream E A) → ((e : E) → IsReal (f e)) → Short m → Ends (stream f m)
  Ends-stream f m h p = record { at = λ k s. counted-Fine f (length s) k (m s) h (p s) }

Short-read_byte : Short read_byte
unfolding read_byte
Short-read_byte [] = omega arith
Short-read_byte (c ∷ s) = omega arith

pub Short-read_full : (n : ℕ) → Short (read_full n)
unfolding read_full
Short-read_full n s = elim (Bool-cases (leb n (length s))) [
  | inl on ↦ rw on (omega (arith, length-drop n s))
  | inr off ↦ rw off (omega arith)
]

Ends-next_byte : Ends next_byte
unfolding next_byte
Ends-next_byte = Ends-stream io read_byte (λ e. tt) Short-read_byte

pub Ends-read_little : (n : ℕ) → Ends (read_little n)
unfolding read_little
Ends-read_little n =
    Ends-bind (stream io (read_full n)) _
      (Ends-stream io (read_full n) (λ e. tt) (Short-read_full n)) (λ b. Ends-pure _)

Ends-read_big : (n : ℕ) → Ends (read_big n)
unfolding read_big
Ends-read_big n =
    Ends-bind (stream io (read_full n)) _
      (Ends-stream io (read_full n) (λ e. tt) (Short-read_full n)) (λ b. Ends-pure _)

Ends-special_length : (n : ℕ) → Ends (special_length n)
Ends-special_length n = Ends-if (n == 0) _ _ Ends-next_byte (
    Ends-if (n == 1) _ _ (Ends-read_little 2)
      (Ends-if (n == 2) _ _ (Ends-read_little 4) (Ends-fail (invalid_special_length n) tt)))

Ends-length_from : (b : ℕ) → Ends (length_from b)
Ends-length_from b = Ends-if (b / 64 == 0) _ _ (Ends-pure (b % 64)) (
    Ends-if (b / 64 == 1) _ _ (Ends-bind next_byte _ Ends-next_byte (λ c. Ends-pure _))
      (Ends-if (b / 64 == 2) _ _ (Ends-read_big 4) (Ends-special_length (b % 64))))

pub Ends-read_length : Ends read_length
unfolding read_length
Ends-read_length = Ends-bind next_byte length_from Ends-next_byte Ends-length_from

Ends-read_string_data : (n : ℕ) → Ends (read_string_data n)
unfolding read_string_data
Ends-read_string_data n = Ends-if (n == 0) _ _ (Ends-pure []) (
    Ends-if (ltb max_string n) _ _ (Ends-fail (string_too_large n) tt)
      (Ends-stream _ (read_full n) (λ e. tt) (Short-read_full n)))

module _ (strategy : VersionStrategy) where
  Ends-read_lzf_string : Ends (read_lzf_string strategy)
  unfolding read_lzf_string
  Ends-read_lzf_string =
      Ends-bind (wrap _ read_length) _ (Ends-wrap _ read_length (λ e. tt) Ends-read_length)
        (λ compressed.
          Ends-bind (wrap _ read_length) _ (Ends-wrap _ read_length (λ e. tt) Ends-read_length)
            (λ n.
              Ends-bind (stream _ (read_full compressed)) _
                (Ends-stream _ (read_full compressed) (λ e. tt) (Short-read_full compressed))
                (λ bytes.
                  Ends-rescue strategy (stream _ (lift (lzf_decompress bytes n)))
                    (pure (placeholder n))
                    (Ends-stream _ (lift (lzf_decompress bytes n)) (λ e. tt) (λ s. omega arith))
                    (Ends-pure (placeholder n)))))

  Ends-special_string : (n : ℕ) → Ends (special_string strategy n)
  Ends-special_string n =
      Ends-if (n == 0) _ _ (Ends-bind next_byte _ Ends-next_byte (λ b. Ends-pure _)) (
        Ends-if (n == 1) _ _ (Ends-bind (read_little 2) _ (Ends-read_little 2) (λ m. Ends-pure _)) (
          Ends-if (n == 2) _ _ (Ends-bind (read_little 4) _ (Ends-read_little 4) (λ m. Ends-pure _))
            (Ends-if (n == 3) _ _ Ends-read_lzf_string (
              Ends-rescue strategy (fail (unsupported_encoding n)) (pure [])
                (Ends-fail (unsupported_encoding n) tt) (Ends-pure [])))))

  Ends-string_from : (b : ℕ) → Ends (string_from strategy b)
  Ends-string_from b = Ends-if (b / 64 == 0) _ _ (Ends-read_string_data (b % 64)) (
      Ends-if (b / 64 == 1) _ _
        (Ends-bind next_byte _ Ends-next_byte (λ c. Ends-read_string_data _))
        (Ends-if (b / 64 == 2) _ _
          (Ends-bind (read_big 4) _ (Ends-read_big 4) (λ n. Ends-read_string_data n))
          (Ends-special_string (b % 64))))

  pub Ends-read_string : Ends (read_string strategy)
  unfolding read_string
  Ends-read_string = Ends-bind next_byte (string_from strategy) Ends-next_byte Ends-string_from
