-- ===== src/Stream/Gives.antt =====
-- Postconditions of stream operations: `Gives P m` says that every value `m` returns satisfies `P`,
-- with one rule for each way to build an operation.
use redis_inmemory_replica.Base.{◌≡◌, Bytes, Result, ok}
use redis_inmemory_replica.Stream.{Stream, pure, fail, lift, ◌>>=◌, map_err}
use redis_inmemory_replica.Stream.Invert.{continue-ok, rename-ok, lift-ok}

module _ {E A : Type 0} where
  pub record Gives (P : A → Type 0) (m : Stream E A) : Type 0 where
    pub at : (s : Bytes) (a : A) (t : Bytes) → m s ≡ (ok a, t) → P a

  ok_injective : (a b : A) (s t : Bytes) → ◌≡◌ {A = Result E A × Bytes} (ok a, s) (ok b, t) → a ≡ b
  ok_injective a b s t h = cc

  pub Gives-pure : (P : A → Type 0) (a : A) → P a → Gives P (pure a)
  Gives-pure P a p = record { at = λ s b t h. rw (← ok_injective a b s t h) p }

  pub Gives-fail : (P : A → Type 0) (e : E) → Gives P (fail e)
  Gives-fail P e = record { at = λ s b t h. cc }

  pub Gives-lift : (P : A → Type 0) (r : Result E A) → ((a : A) → r ≡ ok a → P a) → Gives P (lift r)
  Gives-lift P r p = record { at = λ s b t h. p b (lift-ok r s b t h).0 }

module _ {E F A : Type 0} where
  pub Gives-map_err :
      (P : A → Type 0) (f : E → F) (m : Stream E A) → Gives P m → Gives P (map_err f m)
  Gives-map_err P f m h = record { at = λ s a t e. h.at s a t (rename-ok f (m s) a t e) }

module _ {E A B : Type 0} where
  pub Gives-bind :
      (P : A → Type 0) (Q : B → Type 0) (m : Stream E A) (f : A → Stream E B)
      → Gives P m
      → ((a : A) → P a → Gives Q (f a))
      → Gives Q (m >>= f)
  Gives-bind P Q m f h k = record {
    at = λ s b t e. let (a, u, p, q) = continue-ok (m s) f b t e in (k a (h.at s a u p)).at u b t q;
  }
