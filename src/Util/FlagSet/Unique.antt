-- ===== src/Util/FlagSet/Unique.antt =====
-- The check that the flags are distinct.
use fred_libfred.Common.{ℕ, ◌≡◌, ◌≢◌, ◌↔◌, refl, List, [], ◌∷◌, arith, All, true}
use fred_libfred.Util.FlagSet.{is_unique_from, is_unique}

abbrev pub Distinct : List ℕ → Type 0
Distinct [] = Unit
Distinct (t ∷ ts) = All (λ u. t ≢ u) ts × Distinct ts

from_iff : (t : ℕ) (ts : List ℕ) → (is_unique_from t ts ≡ true) ↔ Distinct (t ∷ ts)
unfolding is_unique_from
from_iff t [] = (λ h. (tt, tt), λ h. refl)
from_iff t (u ∷ ts) =
    let i = from_iff t ts in
    let j = from_iff u ts in
    (
      λ h. (((λ e. ground arith), (i.0 (ground arith)).0), j.0 (ground arith)),
      λ ((ne, a), d). ground (arith, i.1 (a, d.1), j.1 d),
    )

-- The flags pass exactly if no two of them are the same.
is_unique_iff : (ts : List ℕ) → (is_unique ts ≡ true) ↔ Distinct ts
unfolding is_unique
is_unique_iff [] = (λ h. tt, λ h. refl)
is_unique_iff (t ∷ ts) = from_iff t ts
