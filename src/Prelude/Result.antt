-- ===== src/Prelude/Result.antt =====
-- Go's pair of a value and an error, of which one is meant: a value or an error.
use mathlib.Core.Logic.{◌≢◌}

pub data Result {ℓ κ} (E : Type ℓ) (A : Type κ) : Type (ℓ ⊔ κ) where
  ok : A → Result E A
  err : E → Result E A

-- Go on with the value; an error is returned as it is.
infixl 5 ◌>>=◌
abbrev pub ◌>>=◌ {ℓ κ μ} :
    {A : Type κ} {B : Type μ} {E : Type ℓ} → Result E A → (A → Result E B) → Result E B
◌>>=◌ (err failure) next = err failure
◌>>=◌ (ok value) next = next value

-- A bind fails with `x` only if one of its parts does.
pub >>=-ne-err {ℓ κ μ} :
    {E : Type ℓ} {A : Type κ} {B : Type μ} (m : Result E A) (f : A → Result E B) (x : E)
    → m ≢ err x
    → ((a : A) → f a ≢ err x)
    → (m >>= f) ≢ err x
>>=-ne-err (ok a) f x h k = k a
>>=-ne-err (err e) f x h k = λ p. h (cc)

-- What holds of the value, or of the error.
abbrev pub Ends {ℓ κ μ} :
    {E : Type ℓ} {A : Type κ} → (A → Type μ) → (E → Type μ) → Result E A → Type μ
Ends P Q (ok a) = P a
Ends P Q (err e) = Q e

pub Ends->>= {ℓ κ μ ν} :
    {E : Type ℓ} {A : Type κ} {B : Type ν} (P : A → Type μ) (R : B → Type μ) (Q : E → Type μ)
    (m : Result E A) (f : A → Result E B)
    → Ends P Q m
    → ((a : A) → P a → Ends R Q (f a))
    → Ends R Q (m >>= f)
Ends->>= P R Q (ok a) f h k = k a h
Ends->>= P R Q (err e) f h k = h
