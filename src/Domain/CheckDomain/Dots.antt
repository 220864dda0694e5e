-- ===== src/Domain/CheckDomain/Dots.antt =====
-- The dots of a name are one fewer than its labels.
use fred_libfred.Common.{◌+◌, ◌≡◌, ◌≢◌, refl, List, [], ◌∷◌, ◌++◌, arith, Text, length, All}
use fred_libfred.Boost.Parts.{Lacks, glue}
use fred_libfred.Domain.Name.{dot}
use fred_libfred.Domain.CheckDomain.{count_dots}

count_dots-Lacks : (s : Text) → Lacks dot s → count_dots s ≡ 0
unfolding count_dots
count_dots-Lacks [] h = refl
count_dots-Lacks (c ∷ s) (hc, h) = ground (arith, count_dots-Lacks s h)

pub count_dots-append : (s t : Text) → count_dots (s ++ dot ∷ t) ≡ count_dots s + count_dots t + 1
unfolding count_dots
count_dots-append [] t = omega arith
count_dots-append (c ∷ s) t = ground (arith, count_dots-append s t)

pub count_dots-glue :
    (ls : List Text) → ls ≢ [] → All (Lacks dot) ls → length ls ≡ count_dots (glue ls dot) + 1
count_dots-glue [] ne h = absurd (ne refl)
count_dots-glue (l ∷ []) ne (h, _) = omega (arith, count_dots-Lacks l h)
count_dots-glue (l ∷ m ∷ ls) ne (h, hs) = omega (
  arith,
  count_dots-append l (glue (m ∷ ls) dot),
  count_dots-Lacks l h,
  count_dots-glue (m ∷ ls) (λ e. cc) hs,
)
