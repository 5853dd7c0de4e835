-- ===== src/Base/Int.antt =====
-- Go's signed integers, and an `int64` as its 64-bit pattern.
use Prim.Native.Nat.{ℕ, ◌-◌, ◌%◌, ◌^◌}
use redis_inmemory_replica.Base.Tests.{ltb, if◌then◌else◌}

-- `negsuc n` is -(n + 1).
pub data ℤ : Type 0 where
  pos : ℕ → ℤ
  negsuc : ℕ → ℤ

-- The integer -n.
abbrev pub neg : ℕ → ℤ
neg n = if ltb 0 n then negsuc (n - 1) else pos 0

abbrev pub word_mod : ℕ
word_mod = 2 ^ 64

-- The integer that a 64-bit pattern stands for.
abbrev pub signed64 : ℕ → ℤ
signed64 w = if ltb w (2 ^ 63) then pos w else negsuc (word_mod - w - 1)

-- The `int64` operations of the program, on patterns below `2 ^ 64`.
abbrev pub neg64 : ℕ → ℕ
neg64 w = (word_mod - w) % word_mod
