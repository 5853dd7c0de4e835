-- ===== src/Replication/Lzf/Window.antt =====
-- The copy of a back reference against the window law of LZ77: each new byte repeats the byte at
-- the same distance before it, also where the source and the copy overlap.
use native.Mathlib.Decide.{dec_lt}
use redis_inmemory_replica.Base.{
  ℕ, zero, suc, ◌+◌, ◌-◌, ◌<◌, ◌≡◌, refl, sym, ◌∙◌, [], ◌∷◌, ◌++◌, Bytes, ok, length, get_elem?,
  length-append, get_elem?-lt, get_elem?-ext, get_elem?-append_left, get_elem?-append_self, arith,
  some,
}
use redis_inmemory_replica.Replication.Lzf.{copy_back}

-- `r` is `out`, and then `n` bytes that repeat from position `back` on.
pub record IsCopy (n back : ℕ) (out r : Bytes) : Type 0 where
  pub size : length r ≡ length out + n
  pub before : (i : ℕ) → i < length out → get_elem? r i ≡ get_elem? out i
  pub repeats : (i : ℕ) → i < n → get_elem? r (length out + i) ≡ get_elem? r (back + i)

IsCopy-zero : (back : ℕ) (out : Bytes) → IsCopy 0 back out out
IsCopy-zero back out = record {
  size = omega arith;
  before = λ i h. refl;
  repeats = λ i h. absurd (omega arith);
}

IsCopy-suc :
    (n back b : ℕ) (out r : Bytes)
    → back < length out
    → get_elem? out back ≡ some b
    → IsCopy n (suc back) (out ++ b ∷ []) r
    → IsCopy (suc n) back out r
IsCopy-suc n back b out r h e c = record {
  size = omega (arith, c.size, longer);
  before = λ i k. c.before i (omega (arith, longer)) ∙ get_elem?-append_left out (b ∷ []) i k;
  repeats = repeat;
}
  where
    longer : length (out ++ b ∷ []) ≡ length out + 1
    longer = length-append out (b ∷ [])

    repeat : (i : ℕ) → i < suc n → get_elem? r (length out + i) ≡ get_elem? r (back + i)
    repeat zero k =
        let new : get_elem? r (length out) ≡ some b =
          c.before (length out) (omega (arith, longer)) ∙ get_elem?-append_self out b in
        let old : get_elem? r back ≡ some b =
          c.before back (omega (arith, longer)) ∙ get_elem?-append_left out (b ∷ []) back h ∙ e in
        let z : length out + 0 ≡ length out = omega arith in
        let y : back + 0 ≡ back = omega arith in rw (z, y, new, old)
    repeat (suc i) k =
        let z : length out + suc i ≡ length (out ++ b ∷ []) + i = omega (arith, longer) in
        let y : back + suc i ≡ suc back + i = omega arith in rw (z, y) (c.repeats i (omega arith))

copy_back-step :
    (n back b : ℕ) (out : Bytes)
    → get_elem? out back ≡ some b
    → copy_back (suc n) back out ≡ copy_back n (suc back) (out ++ b ∷ [])
unfolding copy_back
copy_back-step n back b out e = rw (e, copy_back)

copy_back-zero : (back : ℕ) (out : Bytes) → copy_back 0 back out ≡ ok out
unfolding copy_back
copy_back-zero back out = refl

-- A copy from within what was written succeeds: it keeps what was there, adds as many bytes as asked,
-- and each byte repeats the one at the same place behind the start of the match.
pub copy_back-IsCopy :
    (n back : ℕ) (out : Bytes)
    → back < length out
    → (r : Bytes) × (copy_back n back out ≡ ok r) × IsCopy n back out r
copy_back-IsCopy zero back out h = (out, copy_back-zero back out, IsCopy-zero back out)
copy_back-IsCopy (suc n) back out h =
    let (b, e) = get_elem?-lt out back h in
    let (r, run, c) =
      copy_back-IsCopy n (suc back) (out ++ b ∷ []) (omega (arith, length-append out (b ∷ []))) in
    (r, copy_back-step n back b out e ∙ run, IsCopy-suc n back b out r h e c)

module _ (n back : ℕ) (out r r' : Bytes) (inside : back < length out) (c : IsCopy n back out r)
    (c' : IsCopy n back out r') where
  agree : (k i : ℕ) → i < k → i < length out + n → get_elem? r i ≡ get_elem? r' i
  agree zero i h l = absurd (omega arith)
  agree (suc k) i h l = elim (dec_lt i (length out)) [
    | yes old ↦ c.before i old ∙ sym (c'.before i old)
    | no new ↦
        let j = i - length out in
        let e : i ≡ length out + j = omega arith in
        rw e (
          c.repeats j (omega arith)
          ∙ agree k (back + j) (omega arith) (omega arith)
          ∙ sym (c'.repeats j (omega arith)))
  ]

  -- The window law determines the result.
  pub IsCopy-unique : r ≡ r'
  IsCopy-unique =
      get_elem?-ext r r' (omega (arith, c.size, c'.size))
        λ i h. agree (suc i) i (omega arith) (omega (arith, c.size))
