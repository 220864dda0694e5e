-- ===== src/Common/Operations.antt =====
-- An operation on tables: what it returns or throws, with the tables after it. What has been written
-- before an exception is for the caller to roll back.
use mathlib.Core.Path.{◌≡◌, refl}
use mathlib.Core.Bool.{Bool}
use fred_libfred.Common.Tests.{if◌then◌else◌}
use fred_libfred.Common.Results.{Result, ok, err}

abbrev pub Operation {ℓ κ μ} : Type ℓ → Type κ → Type μ → Type (ℓ ⊔ κ ⊔ μ)
Operation E S A = S → Result E A × S

module _ {ℓ κ} {E : Type ℓ} {S : Type κ} where
  abbrev pub continue {μ ν} :
      {A : Type μ} {B : Type ν} → Result E A × S → (A → Operation E S B) → Result E B × S
  continue (ok a, s) next = next a s
  continue (err e, s) next = (err e, s)

  infixl 5 ◌>>=◌ ◌>>◌
  abbrev pub ◌>>=◌ {μ ν} :
      {A : Type μ} {B : Type ν} → Operation E S A → (A → Operation E S B) → Operation E S B
  ◌>>=◌ first next s = continue (first s) next

  abbrev pub ◌>>◌ {ν} : {B : Type ν} → Operation E S (Unit {0}) → Operation E S B → Operation E S B
  first >> next = first >>= λ _. next

  abbrev pub return {μ} : {A : Type μ} → A → Operation E S A
  return a s = (ok a, s)

  abbrev pub throw {μ} : {A : Type μ} → E → Operation E S A
  throw e s = (err e, s)

  abbrev pub throw_if : Bool → E → Operation E S (Unit {0})
  throw_if failed e s = (if failed then err e else ok tt, s)

  -- An operation that returned has returned at each of its steps.
  pub returned {μ ν} :
      {A : Type μ} {B : Type ν} (first : Result E A × S) (next : A → Operation E S B) {b : B}
      {s' : S}
      → continue first next ≡ (ok b, s')
      → (a : A) × (s : S) × (first ≡ (ok a, s)) × (next a s ≡ (ok b, s'))
  returned (ok a, s) next h = (a, s, refl, h)
  returned (err e, s) next h = cc

  -- A property of the tables that an operation and what follows it keep is kept by both.
  pub continue-Keeps {μ ν π} :
      {A : Type μ} {B : Type ν} (P : S → Type π) (first : Result E A × S)
      (next : A → Operation E S B)
      → P first.1
      → ((a : A) (s : S) → first ≡ (ok a, s) → P s → P (next a s).1)
      → P (continue first next).1
  continue-Keeps P (ok a, s) next p then_next = then_next a s refl p
  continue-Keeps P (err e, s) next p then_next = p

  -- The tables have the property in any case, and an exception has the other one.
  abbrev pub Ends {μ π} : {A : Type μ} → (S → Type π) → (E → Type 0) → Result E A × S → Type π
  Ends P Q (ok a, s) = P s × Unit {0}
  Ends P Q (err e, s) = P s × Q e

  pub Ends-state {μ π} :
      {A : Type μ} (P : S → Type π) (Q : E → Type 0) (m : Result E A × S) → Ends P Q m → P m.1
  Ends-state P Q (ok a, s) h = h.0
  Ends-state P Q (err e, s) h = h.0

  pub continue-Ends {μ ν π} :
      {A : Type μ} {B : Type ν} (P : S → Type π) (Q : E → Type 0) (first : Result E A × S)
      (next : A → Operation E S B)
      → Ends P Q first
      → ((a : A) (s : S) → P s → Ends P Q (next a s))
      → Ends P Q (continue first next)
  continue-Ends P Q (ok a, s) next h then_next = then_next a s h.0
  continue-Ends P Q (err e, s) next h then_next = h

  pub Ends-mono {μ π ν} :
      {A : Type μ} (P : S → Type π) (P' : S → Type ν) (Q : E → Type 0) (m : Result E A × S)
      → ((s : S) → P s → P' s)
      → Ends P Q m
      → Ends P' Q m
  Ends-mono P P' Q (ok a, s) weaker h = (weaker s h.0, tt)
  Ends-mono P P' Q (err e, s) weaker h = (weaker s h.0, h.1)
