-- ===== src/Prelude/Results.antt =====
-- Go's (value, error) pair: a value, or the error with which the function returns.
use mathlib.Core.Path.{◌≡◌, refl}
use mathlib.Core.Logic.{◌⊎◌, inl, inr}

pub data Result {ℓ} (E : Type 0) (A : Type ℓ) : Type ℓ where
  ok : A → Result E A
  err : E → Result E A

infixl 5 ◌>>=◌
abbrev pub ◌>>=◌ {ℓ κ} :
    {E : Type 0} {A : Type ℓ} {B : Type κ} → Result E A → (A → Result E B) → Result E B
err failure >>= next = err failure
ok value >>= next = next value

pub Result-cases {ℓ} :
    {E : Type 0} {A : Type ℓ} (r : Result E A) → ((a : A) × (r ≡ ok a)) ⊎ ((e : E) × (r ≡ err e))
Result-cases (ok a) = inl (a, refl)
Result-cases (err e) = inr (e, refl)

-- What holds of the value, if there is one.
abbrev pub AllOk {ℓ κ} : {E : Type 0} {A : Type ℓ} → (A → Type κ) → Result E A → Type κ
AllOk P (ok a) = P a
AllOk P (err e) = Unit {κ}

pub AllOk-bind {ℓ₁ ℓ₂ κ₁ κ₂} :
    {E : Type 0} {A : Type ℓ₁} {B : Type ℓ₂} (P : A → Type κ₁) (Q : B → Type κ₂) (r : Result E A)
    (next : A → Result E B)
    → AllOk P r
    → ((a : A) → P a → AllOk Q (next a))
    → AllOk Q (r >>= next)
AllOk-bind P Q (ok a) next h k = k a h
AllOk-bind P Q (err e) next h k = tt
