-- ===== src/Boost/Parts.antt =====
-- The reference meaning of splitting at a separator and of joining: `cut` and `glue` are inverse.
use fred_libfred.Common.{
  ℕ, ◌≡◌, refl, ap, ◌≢◌, List, [], ◌∷◌, ◌++◌, arith, Text, All, ◌==◌, if◌then◌else◌,
}

abbrev pub Lacks : ℕ → Text → Type 0
Lacks d = All (λ c. c ≢ d)

abbrev pub glue : List Text → ℕ → Text
glue [] d = []
glue (p ∷ []) d = p
glue (p ∷ q ∷ ps) d = p ++ d ∷ glue (q ∷ ps) d

abbrev pub cons_head : ℕ → List Text → List Text
cons_head c [] = (c ∷ []) ∷ []
cons_head c (l ∷ ls) = (c ∷ l) ∷ ls

abbrev pub cut : Text → ℕ → List Text
cut [] d = [] ∷ []
cut (c ∷ s) d = let rest = cut s d in if c == d then [] ∷ rest else cons_head c rest

cons_head-ne-nil : (c : ℕ) (ls : List Text) → cons_head c ls ≢ []
cons_head-ne-nil c [] h = cc
cons_head-ne-nil c (l ∷ ls) h = cc

pub cut-ne-nil : (s : Text) (d : ℕ) → cut s d ≢ []
cut-ne-nil [] d h = cc
cut-ne-nil (c ∷ s) d h = ground (arith, cons_head-ne-nil c (cut s d))

glue-cons_head : (c d : ℕ) (ls : List Text) → glue (cons_head c ls) d ≡ c ∷ glue ls d
glue-cons_head c d [] = refl
glue-cons_head c d (l ∷ []) = refl
glue-cons_head c d (l ∷ m ∷ ls) = refl

glue-nil-cons : (d : ℕ) (ls : List Text) → ls ≢ [] → glue ([] ∷ ls) d ≡ d ∷ glue ls d
glue-nil-cons d [] h = absurd (h refl)
glue-nil-cons d (l ∷ ls) h = refl

pub glue-cut : (s : Text) (d : ℕ) → glue (cut s d) d ≡ s
glue-cut [] d = refl
glue-cut (c ∷ s) d =
    ground (
      arith,
      glue-cut s d,
      glue-cons_head c d (cut s d),
      glue-nil-cons d (cut s d) (cut-ne-nil s d),
    )

cons_head-Lacks :
    (c d : ℕ) (ls : List Text) → c ≢ d → All (Lacks d) ls → All (Lacks d) (cons_head c ls)
cons_head-Lacks c d [] h a = ((h, tt), tt)
cons_head-Lacks c d (l ∷ ls) h (x, a) = ((h, x), a)

-- No part of a split text holds the separator.
pub cut-Lacks : (s : Text) (d : ℕ) → All (Lacks d) (cut s d)
cut-Lacks [] d = (tt, tt)
cut-Lacks (c ∷ s) d = ground (arith, cut-Lacks s d, cons_head-Lacks c d (cut s d))

cut_whole : (p : Text) (d : ℕ) → Lacks d p → cut p d ≡ p ∷ []
cut_whole [] d h = refl
cut_whole (c ∷ p) d (hc, h) = ground (arith, cut_whole p d h)

cut_at : (p s : Text) (d : ℕ) → Lacks d p → cut (p ++ d ∷ s) d ≡ p ∷ cut s d
cut_at [] s d h = ground arith
cut_at (c ∷ p) s d (hc, h) = ground (arith, cut_at p s d h)

pub cut-glue : (ps : List Text) (d : ℕ) → ps ≢ [] → All (Lacks d) ps → cut (glue ps d) d ≡ ps
cut-glue [] d h a = absurd (h refl)
cut-glue (p ∷ []) d h (x, a) = cut_whole p d x
cut-glue (p ∷ q ∷ ps) d h (x, a) =
    rw (cut_at p (glue (q ∷ ps) d) d x) (ap (◌∷◌ p) (cut-glue (q ∷ ps) d (λ e. cc) a))
