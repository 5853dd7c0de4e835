-- ===== src/Storage/Memory/New/Power.antt =====
-- `nextPowerOf2` against its name.
use Prim.Native.Nat.{bit_or}
use redis_inmemory_replica.Base.{
  ℕ, zero, suc, ◌+◌, ◌-◌, ◌*◌, ◌/◌, ◌%◌, ◌^◌, ◌≤◌, ◌<◌, ◌≡◌, refl, sym, ap, ◌∙◌, inl, inr,
  Bool-cases, leb, arith, zero-bit_or, bit_or-half, bit_or-digit, bit_or-zero, bit_or_assoc,
}
use redis_inmemory_replica.Storage.Memory.New.{smear, next_power_of2}

abbrev pub power : ℕ → ℕ
power zero = 1
power (suc j) = power j * 2

-- The number without its `k` lowest digits.
abbrev shifted : ℕ → ℕ → ℕ
shifted zero m = m
shifted (suc k) m = shifted k (m / 2)

-- A number with `k` copies of itself, each shifted by one digit more.
abbrev spread : ℕ → ℕ → ℕ
spread zero m = 0
spread (suc k) m = bit_or m (spread k (m / 2))

spread-half : (k m : ℕ) → spread k m / 2 ≡ spread k (m / 2)
spread-half zero m = omega arith
spread-half (suc k) m =
    bit_or-half m (spread k (m / 2)) ∙ ap (bit_or (m / 2)) (spread-half k (m / 2))

spread-shifted : (j k m : ℕ) → shifted j (spread k m) ≡ spread k (shifted j m)
spread-shifted zero k m = refl
spread-shifted (suc j) k m = ap (shifted j) (spread-half k m) ∙ spread-shifted j k (m / 2)

-- Copies behind copies. `sum` adds in the order of the recursion.
abbrev sum : ℕ → ℕ → ℕ
sum zero k = k
sum (suc j) k = suc (sum j k)

spread-sum : (j k m : ℕ) → bit_or (spread j m) (spread k (shifted j m)) ≡ spread (sum j k) m
spread-sum zero k m = zero-bit_or (spread k m)
spread-sum (suc j) k m =
    bit_or_assoc m (spread j (m / 2)) (spread k (shifted j (m / 2)))
    ∙ ap (bit_or m) (spread-sum j k (m / 2))

spread-twice : (k m : ℕ) → bit_or (spread k m) (shifted k (spread k m)) ≡ spread (sum k k) m
spread-twice k m = ap (bit_or (spread k m)) (spread-shifted k k m) ∙ spread-sum k k m

-- The lowest digit of the copies of a number that is not zero.
spread-odd : (k m : ℕ) → 0 < m → m < power k → spread k m % 2 ≡ 1
spread-odd zero m h l = absurd (omega arith)
spread-odd (suc k) m h l = elim (Bool-cases (leb (m % 2) 0)) [
  | inl even ↦
      let e : m % 2 ≡ 0 = ground arith in
      omega
        (arith, bit_or-digit m (spread k (m / 2)), spread-odd k (m / 2) (omega arith) (omega arith))
  | inr odd ↦ let e : m % 2 ≡ 1 = ground arith in omega (arith, bit_or-digit m (spread k (m / 2)))
]

spread_zero : (k : ℕ) → spread k 0 ≡ 0
spread_zero zero = refl
spread_zero (suc k) = zero-bit_or (spread k 0) ∙ spread_zero k

-- `p` is a power of two.
abbrev pub IsPower : ℕ → Type 0
IsPower p = (j : ℕ) × (p ≡ power j)

-- The copies of a number fill all its digits.
spread-IsPower :
    (k n m : ℕ)
    → m ≤ n
    → m < power k
    → IsPower (spread k m + 1) × (m ≤ spread k m) × (spread k m ≤ m + m - 1)
spread-IsPower k n zero h l =
    let e = spread_zero k in ((0, omega (arith, e)), omega arith, omega (arith, e))
spread-IsPower k zero (suc m) h l = absurd (omega arith)
spread-IsPower k (suc n) (suc m) h l =
    let x = suc m in
    let ((j, e), low, high) = spread-IsPower k n (x / 2) (omega arith) (omega arith) in
    let half = spread-half k x in
    let odd = spread-odd k x (omega arith) l in
    (
      (suc j, omega (arith, e, half, odd)),
      omega (arith, low, half, odd),
      omega (arith, high, half, odd),
    )

-- `shifted` at the amounts of the source.
shift_smear :
    (k m : ℕ)
    → shifted k (spread k m) ≡ spread k m / 2 ^ k
    → smear k (spread k m) ≡ spread (sum k k) m
shift_smear k m e = ap (bit_or (spread k m)) (sym e) ∙ spread-twice k m

spread_one : (m : ℕ) → spread 1 m ≡ m
spread_one m = bit_or-zero m

smeared : ℕ → ℕ
smeared n = smear 32 (smear 16 (smear 8 (smear 4 (smear 2 (smear 1 n)))))

smeared-spread : (m : ℕ) → smeared m ≡ spread 64 m
unfolding smeared
smeared-spread m =
    ap (λ u. smear 32 (smear 16 (smear 8 (smear 4 (smear 2 (smear 1 u)))))) (sym (spread_one m))
    ∙ ap (λ u. smear 32 (smear 16 (smear 8 (smear 4 (smear 2 u))))) (shift_smear 1 m (omega arith))
    ∙ ap (λ u. smear 32 (smear 16 (smear 8 (smear 4 u)))) (shift_smear 2 m (omega arith))
    ∙ ap (λ u. smear 32 (smear 16 (smear 8 u))) (shift_smear 4 m (omega arith))
    ∙ ap (λ u. smear 32 (smear 16 u)) (shift_smear 8 m (omega arith))
    ∙ ap (λ u. smear 32 u) (shift_smear 16 m (omega arith))
    ∙ shift_smear 32 m (omega arith)

-- A power of two that is not less than the number and less than its double: there is one only.
abbrev pub IsRounded : ℕ → ℕ → Type 0
IsRounded n p = IsPower p × (n ≤ p) × (p < 2 * n)

-- `nextPowerOf2` of a number from 1 to 2 ^ 62 is the least power of two that is not less.
pub next_power_of2-IsRounded : (n : ℕ) → 0 < n → n ≤ 2 ^ 62 → IsRounded n (next_power_of2 n)
unfolding next_power_of2 smeared
next_power_of2-IsRounded n some_shards h = elim (Bool-cases (leb n 1)) [
  | inl one ↦ let e : n ≡ 1 = ground arith in rw one ((0, refl), omega (arith, e), omega (arith, e))
  | inr more ↦
      let many : 1 < n = ground arith in
      let m = n - 1 in
      let e = smeared-spread m in
      let (p, low, high) = spread-IsPower 64 m m (omega arith) (omega arith) in
      rw (more, e) (p, omega (arith, low, many), omega (arith, high, many))
]
