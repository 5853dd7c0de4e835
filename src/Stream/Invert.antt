-- ===== src/Stream/Invert.antt =====
-- What a successful operation says of the bytes that it took.
use redis_inmemory_replica.Base.{
  ℕ, ◌≡◌, ◌≢◌, refl, ap, inl, inr, [], ◌∷◌, ◌++◌, Bytes, Result, ok, err, length, take, drop,
  length-take, take-append-drop, All, arith, Bool-cases, ==_iff, ◌==◌, leb, leb→le,
}
use redis_inmemory_replica.Stream.{
  Stream, IoError, continue, rename, read_byte, prepend, read_bytes, read_full,
}

module _ {E A B : Type 0} where
  pub continue-ok :
      (r : Result E A × Bytes) (f : A → Stream E B) (b : B) (t : Bytes)
      → continue r f ≡ (ok b, t)
      → (a : A) × (u : Bytes) × (r ≡ (ok a, u)) × (f a u ≡ (ok b, t))
  continue-ok (ok a, u) f b t h = (a, u, refl, h)
  continue-ok (err e, u) f b t h = cc

module _ {E F A : Type 0} where
  pub rename-ok :
      (f : E → F) (r : Result E A × Bytes) (a : A) (t : Bytes)
      → rename f r ≡ (ok a, t)
      → r ≡ (ok a, t)
  rename-ok f (ok a', u) a t h = cc
  rename-ok f (err e, u) a t h = cc

pub read_byte-ok : (s : Bytes) (c : ℕ) (t : Bytes) → read_byte s ≡ (ok c, t) → s ≡ c ∷ t
unfolding read_byte
read_byte-ok [] c t h = cc
read_byte-ok (c' ∷ s) c t h = cc

prepend-ok :
    (c : ℕ) (r : Result IoError Bytes × Bytes) (line t : Bytes)
    → prepend c r ≡ (ok line, t)
    → (rest : Bytes) × (r ≡ (ok rest, t)) × (line ≡ c ∷ rest)
prepend-ok c (ok rest, u) line t h = (rest, cc, cc)
prepend-ok c (err e, u) line t h = cc

-- What was read up to a delimiter holds no earlier one, and is what the stream began with.
pub read_bytes-ok :
    (d : ℕ) (s line t : Bytes)
    → read_bytes d s ≡ (ok line, t)
    → (before : Bytes) × (line ≡ before ++ d ∷ []) × All (λ c. c ≢ d) before × (s ≡ line ++ t)
unfolding read_bytes
read_bytes-ok d [] line t h = cc
read_bytes-ok d (c ∷ s) line t h = elim (Bool-cases (c == d)) [
  | inl end ↦
      let same : ◌≡◌ {A = Result IoError Bytes × Bytes} (ok (c ∷ []), s) (ok line, t) =
        rw end at h in
      let e : c ≡ d = (==_iff c d).0 end in ([], cc, tt, cc)
  | inr more ↦
      let (rest, p, q) = prepend-ok c (read_bytes d s) line t (rw more at h) in
      let (before, l, none_before, taken) = read_bytes-ok d s rest t p in
      (c ∷ before, cc, (ground (arith, more), none_before), cc)
]

pub read_full-ok :
    (n : ℕ) (s bytes t : Bytes)
    → read_full n s ≡ (ok bytes, t)
    → (length bytes ≡ n) × (s ≡ bytes ++ t)
unfolding read_full
read_full-ok n s bytes t h = elim (Bool-cases (leb n (length s))) [
  | inl enough ↦
      let same : ◌≡◌ {A = Result IoError Bytes × Bytes} (ok (take n s), drop n s) (ok bytes, t) =
        rw enough at h in
      let b : take n s ≡ bytes = cc in
      let r : drop n s ≡ t = cc in
      (rw (← b) (length-take n s (leb→le n (length s) enough)), rw (← b, ← r, take-append-drop n s))
  | inr short ↦ cc (rw short at h)
]

module _ {E A : Type 0} where
  -- The two ways out of a `check` whose value is a result.
  pub lift-ok :
      (r : Result E A) (s : Bytes) (a : A) (t : Bytes)
      → ◌≡◌ {A = Result E A × Bytes} (r, s) (ok a, t)
      → (r ≡ ok a) × (s ≡ t)
  lift-ok r s a t h =
      (ap (λ (p : Result E A × Bytes). p.0) h, ap (λ (p : Result E A × Bytes). p.1) h)
