-- ===== src/Base/Fallible.antt =====
-- The results of fallible code: a value or an error of the component's own error type.

pub data Result {ℓ} (E A : Type ℓ) : Type ℓ where
  ok : A → Result E A
  err : E → Result E A
