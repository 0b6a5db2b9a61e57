-- ===== src/Base/Results.antt =====
-- Go's `(T, error)`: a value or an error.
use mathlib.Core.Path.{◌≡◌, refl, ap}
use mathlib.Core.Logic.{◌⊎◌, inl, inr}

pub data Result {ℓ κ} (E : Type ℓ) (A : Type κ) : Type (ℓ ⊔ κ) where
  ok : A → Result E A
  err : E → Result E A

pub err_ok : {E A B : Type 0} {e : E} {a : A} → ◌≡◌ {A = Result E A} (err e) (ok a) → B
err_ok h = cc

pub ok_ok : {E A : Type 0} {a b : A} → ◌≡◌ {A = Result E A} (ok a) (ok b) → a ≡ b
ok_ok {a = a} h = ap (λ r. elim r [ ok x ↦ x | err e ↦ a ]) h

pub Result-cases :
    {E A : Type 0} (r : Result E A) → ((e : E) × (r ≡ err e)) ⊎ ((a : A) × (r ≡ ok a))
Result-cases (err e) = inl (e, refl)
Result-cases (ok a) = inr (a, refl)
