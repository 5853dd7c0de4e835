-- ===== src/Base/Or.antt =====
-- The `or` of two native numbers, digit by digit.
use Prim.Native.Nat.{ℕ, zero, suc, ◌+◌, ◌*◌, ◌/◌, ◌%◌, ◌≤◌, max, bit_or, digits, bit_or-bitwise}
use mathlib.Core.Path.{◌≡◌, refl, ap}
use native.Mathlib.Omega.{arith}

abbrev or_within : ℕ → ℕ → ℕ → ℕ
or_within n a b = digits (λ d. d) max n a b

-- More steps than the first number needs change nothing.
or_within_enough : (n a b : ℕ) → a ≤ n → or_within n a b ≡ bit_or a b
or_within_enough n a b h = omega (arith, bit_or-bitwise a b, same n a a b h (omega arith))
  where
    same : (n m a b : ℕ) → a ≤ n → a ≤ m → or_within n a b ≡ or_within m a b
    same zero zero zero b p q = refl
    same zero (suc m) zero b p q = refl
    same (suc n) zero zero b p q = refl
    same (suc n) (suc m) zero b p q = refl
    same zero m (suc a) b p q = absurd (omega arith)
    same (suc n) zero (suc a) b p q = absurd (omega arith)
    same (suc n) (suc m) (suc a) b p q =
        omega (arith, same n m (suc a / 2) (b / 2) (omega arith) (omega arith))

pub zero-bit_or : (b : ℕ) → bit_or 0 b ≡ b
zero-bit_or b = bit_or-bitwise 0 b

-- The lowest digit, and the others.
pub bit_or_low : (a b : ℕ) → bit_or a b ≡ bit_or (a / 2) (b / 2) * 2 + max (a % 2) (b % 2)
bit_or_low zero b = omega (arith, zero-bit_or b, zero-bit_or (b / 2))
bit_or_low (suc a) b =
    omega (arith, bit_or-bitwise (suc a) b, or_within_enough a (suc a / 2) (b / 2) (omega arith))

pub bit_or-half : (a b : ℕ) → bit_or a b / 2 ≡ bit_or (a / 2) (b / 2)
bit_or-half a b = omega (arith, bit_or_low a b)

pub bit_or-digit : (a b : ℕ) → bit_or a b % 2 ≡ max (a % 2) (b % 2)
bit_or-digit a b = omega (arith, bit_or_low a b)

-- Numbers with the same lowest digit and the same others are the same.
pub bit_or-zero : (a : ℕ) → bit_or a 0 ≡ a
bit_or-zero a = go a a (omega arith)
  where
    go : (n a : ℕ) → a ≤ n → bit_or a 0 ≡ a
    go n zero h = zero-bit_or 0
    go zero (suc a) h = absurd (omega arith)
    go (suc n) (suc a) h = omega (arith, bit_or_low (suc a) 0, go n (suc a / 2) (omega arith))

pub bit_or_assoc : (a b c : ℕ) → bit_or (bit_or a b) c ≡ bit_or a (bit_or b c)
bit_or_assoc a b c = go a a b c (omega arith)
  where
    go : (n a b c : ℕ) → a ≤ n → bit_or (bit_or a b) c ≡ bit_or a (bit_or b c)
    go n zero b c h =
        omega (arith, zero-bit_or b, ap (λ u. bit_or u c) (zero-bit_or b), zero-bit_or (bit_or b c))
    go zero (suc a) b c h = absurd (omega arith)
    go (suc n) (suc a) b c h =
        let x = suc a in
        omega (
          arith,
          bit_or_low (bit_or x b) c,
          bit_or_low x (bit_or b c),
          ap (λ u. bit_or u (c / 2)) (bit_or-half x b),
          ap (λ u. bit_or (x / 2) u) (bit_or-half b c),
          bit_or-digit x b,
          bit_or-digit b c,
          go n (x / 2) (b / 2) (c / 2) (omega arith),
        )
