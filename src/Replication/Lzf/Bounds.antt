-- ===== src/Replication/Lzf/Bounds.antt =====
-- The decoder ends, reads nothing out of range, and returns exactly the bytes that are expected.
use redis_inmemory_replica.Base.{
  ℕ, zero, suc, ◌+◌, ◌-◌, ◌/◌, ◌%◌, ◌*◌, ◌≤◌, ◌<◌, ◌≡◌, inl, inr, [], ◌∷◌, Bytes, Result, ok, err,
  length, take, length-append, length-take, length-drop, arith, Bool-cases, ltb, ◌==◌,
}
use redis_inmemory_replica.Replication.Lzf.{
  LzfError, out_of_fuel, read_out_of_range, literal_run, back_copy, extended, back_reference, item,
  finish, loop, lzf_decompress,
}
use redis_inmemory_replica.Replication.Lzf.Window.{copy_back-IsCopy}

-- An error of the source: neither a lack of fuel nor a read outside the buffer.
abbrev pub IsReal : LzfError → Type 0
IsReal out_of_fuel = ⊥
IsReal read_out_of_range = ⊥
IsReal _ = Unit

-- The step leaves at most `n` bytes of input and at most `limit` bytes of output.
abbrev StepOk : ℕ → ℕ → Result LzfError (Bytes × Bytes) → Type 0
StepOk n limit (ok (input, out)) = (length input ≤ n) × (length out ≤ limit)
StepOk n limit (err e) = IsReal e

literal_run-StepOk :
    (limit ctrl : ℕ) (input out : Bytes)
    → StepOk (length input) limit (literal_run limit ctrl input out)
unfolding literal_run
literal_run-StepOk limit ctrl input out = elim (Bool-cases (ltb (length input) (ctrl + 1))) [
  | inl short ↦ rw short tt
  | inr enough ↦ elim (Bool-cases (ltb limit (length out + (ctrl + 1)))) [
    | inl over ↦ rw (enough, over) tt
    | inr fits ↦
        let room : ctrl + 1 ≤ length input = ground arith in
        let free : length out + (ctrl + 1) ≤ limit = ground arith in
        rw (enough, fits)
          (
            omega (arith, length-drop (ctrl + 1) input),
            omega (
              arith,
              length-append out (take (ctrl + 1) input),
              length-take (ctrl + 1) input room,
            ),
          )
  ]
]

back_copy-StepOk :
    (limit n ctrl : ℕ) (input out : Bytes)
    → StepOk (length input) limit (back_copy limit n ctrl input out)
unfolding back_copy
back_copy-StepOk limit n ctrl [] out = tt
back_copy-StepOk limit n ctrl (b ∷ input) out =
    elim (Bool-cases (ltb (length out) (ctrl % 32 * 256 + b + 1))) [
      | inl far ↦ rw far tt
      | inr near ↦ elim (Bool-cases (ltb limit (length out + n))) [
        | inl over ↦ rw (near, over) tt
        | inr fits ↦
            let back = length out - (ctrl % 32 * 256 + b + 1) in
            let inside : back < length out = ground arith in
            let free : length out + n ≤ limit = ground arith in
            let (r, run, c) = copy_back-IsCopy n back out inside in
            rw (near, fits, run) (omega arith, omega (arith, c.size))
      ]
    ]

StepOk-mono :
    (m n limit : ℕ) (r : Result LzfError (Bytes × Bytes))
    → m ≤ n
    → StepOk m limit r
    → StepOk n limit r
StepOk-mono m n limit (ok (input, out)) h (k, l) = (omega arith, l)
StepOk-mono m n limit (err e) h k = k

extended-StepOk :
    (limit ctrl : ℕ) (input out : Bytes)
    → StepOk (length input) limit (extended limit ctrl input out)
extended-StepOk limit ctrl [] out = tt
extended-StepOk limit ctrl (b ∷ input) out =
    StepOk-mono (length input) (suc (length input)) limit _ (omega arith)
      (back_copy-StepOk limit (7 + b + 2) ctrl input out)

item-StepOk :
    (limit ctrl : ℕ) (input out : Bytes) → StepOk (length input) limit (item limit ctrl input out)
unfolding item back_reference
item-StepOk limit ctrl input out = elim (Bool-cases (ltb ctrl 32)) [
  | inl literal ↦ rw literal (literal_run-StepOk limit ctrl input out)
  | inr reference ↦ elim (Bool-cases (ctrl / 32 == 7)) [
    | inl long ↦ rw (reference, long) (extended-StepOk limit ctrl input out)
    | inr short ↦ rw (reference, short) (back_copy-StepOk limit (ctrl / 32 + 2) ctrl input out)
  ]
]

-- A result of the expected size, or an error of the source.
abbrev pub Sized : ℕ → Result LzfError Bytes → Type 0
Sized limit (ok out) = length out ≡ limit
Sized limit (err e) = IsReal e

finish-Sized : (limit : ℕ) (out : Bytes) → Sized limit (finish limit out)
finish-Sized limit out = ground arith

loop-Sized :
    (f limit : ℕ) (input out : Bytes) → length input < f → Sized limit (loop f limit input out)
unfolding loop
loop-Sized zero limit input out h = absurd (omega arith)
loop-Sized (suc f) limit [] out h = finish-Sized limit out
loop-Sized (suc f) limit (ctrl ∷ input) out h = elim (Bool-cases (ltb (length out) limit)) [
  | inl go ↦
      rw go
        (next (item limit ctrl input out) (item-StepOk limit ctrl input out) (loop-Sized f limit))
  | inr done ↦ rw done (finish-Sized limit out)
]
  where
    next :
        (r : Result LzfError (Bytes × Bytes))
        → StepOk (length input) limit r
        → ((input' out' : Bytes) → length input' < f → Sized limit (loop f limit input' out'))
        → Sized limit (elim r [ ok (input', out') ↦ loop f limit input' out' | err e ↦ err e ])
    next (ok (input', out')) (k, l) ih = ih input' out' (omega arith)
    next (err e) k ih = k

-- On data that is not empty the decoder ends with exactly the expected number of bytes, or with one
-- of its errors: it neither runs on nor reads outside what it has written.
pub lzf_decompress-Sized :
    (c : ℕ) (compressed : Bytes) (limit : ℕ) → Sized limit (lzf_decompress (c ∷ compressed) limit)
unfolding lzf_decompress
lzf_decompress-Sized c compressed limit =
    loop-Sized (suc (length (c ∷ compressed))) limit (c ∷ compressed) [] (omega arith)
