-- ===== src/Replication/Rdb.antt =====
-- The input of the RDB parser of replication/rdb.go: its errors, the bytes that are still to come, and
-- the count of errors that `canSkipError` keeps. Bytes are numbers below 256. The buffered reader has
-- no error but the end of the stream.
pub mod Strings
pub mod Values
pub mod Parse
pub mod Encode
pub mod RoundTrip
pub mod Load
pub mod Ends
use redis_inmemory_replica.Base.{
  ℕ, suc, ◌+◌, ◌*◌, Bool, true, false, List, [], ◌∷◌, Bytes, Result, ok, err, ℤ, pos, negsuc, leb,
  ◌==◌, if◌then◌else◌,
}
use redis_inmemory_replica.Stream.{Stream, IoError}
use redis_inmemory_replica.Replication.Lzf.{LzfError}
use redis_inmemory_replica.Replication.Apply.{ApplyError}

-- `VersionStrategy`
pub record VersionStrategy : Type 0 where
  pub version : ℤ
  pub supports_binary_aux : Bool
  pub requires_strict_parsing : Bool
  pub max_skippable_errors : ℕ

-- `versionStrategies`, and the strategy of a version that is not there.
unfoldable pub strategy_of : ℤ → VersionStrategy
strategy_of (negsuc n) = record {
  version = negsuc n;
  supports_binary_aux = true;
  requires_strict_parsing = false;
  max_skippable_errors = 5;
}
strategy_of (pos v) =
    if v == 9
    then record {
      version = pos 9;
      supports_binary_aux = false;
      requires_strict_parsing = true;
      max_skippable_errors = 0;
    }
    else if v == 10
    then record {
      version = pos 10;
      supports_binary_aux = true;
      requires_strict_parsing = true;
      max_skippable_errors = 1;
    }
    else if v == 11
    then record {
      version = pos 11;
      supports_binary_aux = true;
      requires_strict_parsing = false;
      max_skippable_errors = 2;
    }
    else if v == 12
    then record {
      version = pos 12;
      supports_binary_aux = true;
      requires_strict_parsing = false;
      max_skippable_errors = 3;
    }
    else record {
      version = pos v;
      supports_binary_aux = true;
      requires_strict_parsing = false;
      max_skippable_errors = 5;
    }

-- `out_of_fuel` belongs to the model only.
pub data RdbError : Type 0 where
  io : IoError → RdbError
  invalid_special_length unsupported_encoding string_too_large : ℕ → RdbError
  string_data_failed : IoError → RdbError
  lzf_compressed_length lzf_uncompressed_length : RdbError → RdbError
  lzf_data_failed : IoError → RdbError
  lzf_failed : LzfError → RdbError
  unsupported_type : ℕ → RdbError
  skip_type_failed skip_length_failed : ℕ → RdbError → RdbError
  skip_data_failed : ℕ → IoError → RdbError
  key_failed : RdbError → RdbError
  value_failed : Bytes → RdbError → RdbError
  aux_key_failed : RdbError → RdbError
  aux_value_failed : Bytes → RdbError → RdbError
  aux_failed database_failed expiry_failed : RdbError → RdbError
  header_failed : IoError → RdbError
  invalid_magic invalid_version : Bytes → RdbError
  unsupported_version : ℤ → RdbError
  handler_failed : ApplyError → RdbError
  out_of_fuel : RdbError

-- How many errors there were, and the bytes to come.
abbrev pub Input : Type 0
Input = ℕ × Bytes

abbrev pub Read : Type 0 → Type 0
Read A = Input → Result RdbError A × Input

module _ {A : Type 0} where
  abbrev pub pure : A → Read A
  pure a s = (ok a, s)

  abbrev pub fail : RdbError → Read A
  fail e s = (err e, s)

  abbrev pub counted :
      {E : Type 0} → (E → RdbError) → ℕ → Result E A × Bytes → Result RdbError A × Input
  counted f n (ok a, s) = (ok a, (n, s))
  counted f n (err e, s) = (err (f e), (n, s))

  -- An operation of the stream, with its error wrapped.
  abbrev pub stream : {E : Type 0} → (E → RdbError) → Stream E A → Read A
  stream f m (n, s) = counted f n (m s)

  abbrev pub wrapped : (RdbError → RdbError) → Result RdbError A × Input → Result RdbError A × Input
  wrapped f (ok a, s) = (ok a, s)
  wrapped f (err e, s) = (err (f e), s)

  -- `fmt.Errorf("…: %w", err)`
  abbrev pub wrap : (RdbError → RdbError) → Read A → Read A
  wrap f m s = wrapped f (m s)

module _ {A B : Type 0} where
  abbrev pub continue : Result RdbError A × Input → (A → Read B) → Result RdbError B × Input
  continue (ok a, s) f = f a s
  continue (err e, s) f = (err e, s)

  infixl 5 ◌>>=◌ ◌>>◌
  abbrev pub ◌>>=◌ : Read A → (A → Read B) → Read B
  ◌>>=◌ m f s = continue (m s) f

  abbrev pub ◌>>◌ : Read A → Read B → Read B
  m >> n = m >>= λ _. n

-- `binary.Read` in the two orders of the bytes.
abbrev pub little_endian : Bytes → ℕ
little_endian [] = 0
little_endian (b ∷ bs) = b + 256 * little_endian bs

abbrev pub big_endian_from : ℕ → Bytes → ℕ
big_endian_from n [] = n
big_endian_from n (b ∷ bs) = big_endian_from (n * 256 + b) bs

abbrev pub big_endian : Bytes → ℕ
big_endian bs = big_endian_from 0 bs

module _ (strategy : VersionStrategy) where
  -- `canSkipError`, where the count is `n`.
  unfoldable pub can_skip : ℕ → Bool
  can_skip n = leb (suc n) strategy.max_skippable_errors

  module _ {A : Type 0} where
    abbrev pub rescued : Read A → Result RdbError A × Input → Result RdbError A × Input
    rescued instead (ok a, s) = (ok a, s)
    rescued instead (err e, (n, s)) = if can_skip n then instead (suc n, s) else (err e, (suc n, s))

    -- `if p.canSkipError() { … }` behind an operation that failed.
    abbrev pub rescue : Read A → Read A → Read A
    rescue m instead s = rescued instead (m s)
