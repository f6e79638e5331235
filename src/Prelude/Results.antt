-- ===== src/Prelude/Results.antt =====
-- Code that returns or raises: `E` is the type of the exceptions.
use mathlib.Core.Path.{◌≡◌, refl}
use mathlib.Core.Logic.{◌⊎◌, inl, inr}

pub data Result {ℓ} (E A : Type ℓ) : Type ℓ where
  ok : A → Result E A
  raise : E → Result E A

infixl 5 ◌>>=◌ ◌>>◌
abbrev pub ◌>>=◌ {ℓ} : {E A B : Type ℓ} → Result E A → (A → Result E B) → Result E B
ok a >>= f = f a
raise e >>= f = raise e

abbrev pub ◌>>◌ : {E B : Type 0} → Result E (Unit {0}) → Result E B → Result E B
m >> k = m >>= λ _. k

pub result_cases {ℓ} :
    {E A : Type ℓ} (r : Result E A) → ((a : A) × (r ≡ ok a)) ⊎ ((e : E) × (r ≡ raise e))
result_cases (ok a) = inl (a, refl)
result_cases (raise e) = inr (e, refl)

-- What is returned, if anything is, has the property.
abbrev pub Returns {ℓ} : {E A : Type ℓ} → (A → Type ℓ) → Result E A → Type ℓ
Returns P (ok a) = P a
Returns P (raise e) = Unit

pub bind-Returns {ℓ} :
    {E A B : Type ℓ} (P : B → Type ℓ) (r : Result E A) (f : A → Result E B)
    → ((a : A) → r ≡ ok a → Returns P (f a))
    → Returns P (r >>= f)
bind-Returns P (ok a) f h = h a refl
bind-Returns P (raise e) f h = tt
