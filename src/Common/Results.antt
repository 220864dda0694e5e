-- ===== src/Common/Results.antt =====
-- Code that throws returns `err`; `E` is the type of what it throws.
use mathlib.Core.Path.{◌≡◌, refl}
use mathlib.Core.Bool.{Bool, true, false}

pub data Result {ℓ κ} (E : Type ℓ) (A : Type κ) : Type (ℓ ⊔ κ) where
  ok : A → Result E A
  err : E → Result E A

infixl 5 ◌>>=◌ ◌>>◌
abbrev pub ◌>>=◌ {ℓ κ μ} :
    {E : Type ℓ} {A : Type κ} {B : Type μ} → Result E A → (A → Result E B) → Result E B
ok a >>= f = f a
err e >>= f = err e

abbrev pub ◌>>◌ {ℓ μ} : {E : Type ℓ} {B : Type μ} → Result E (Unit {0}) → Result E B → Result E B
m >> k = m >>= λ _. k

-- Throw `e` unless the test holds.
abbrev pub guard {ℓ} : {E : Type ℓ} → Bool → E → Result E (Unit {0})
guard true e = ok tt
guard false e = err e

-- A chain that returned returned at each of its two steps.
abbrev pub Steps {ℓ κ μ} :
    {E : Type ℓ} {A : Type κ} {B : Type μ} → Result E A → (A → Result E B) → B → Type (ℓ ⊔ κ ⊔ μ)
Steps m next last = (middle : _) × (m ≡ ok middle) × (next middle ≡ ok last)

pub >>=-Steps {ℓ κ μ} :
    {E : Type ℓ} {A : Type κ} {B : Type μ} (first : Result E A) (next : A → Result E B) {last : B}
    → (first >>= next) ≡ ok last
    → Steps first next last
>>=-Steps (err thrown) next returned = cc
>>=-Steps (ok middle) next returned = (middle, refl, returned)

pub ok_injective {ℓ κ} :
    {E : Type ℓ} {A : Type κ} {a c : A} → ◌≡◌ {A = Result E A} (ok a) (ok c) → a ≡ c
ok_injective h = cc
