-- ===== src/Boost/Plain.antt =====
-- Plain functions that behave as the interface asks, for tests: the laws can be met.
use fred_libfred.Common.{
  ◌≡◌, refl, ap, ◌↔◌, [], ◌∷◌, ◌++◌, arith, Text, text_eq, text_eq→eq, text_eq_refl, Bool, true,
  false, ◌||◌, ◌&&◌, ◌==◌,
}
use fred_libfred.Boost.{StringAlgorithms}
use fred_libfred.Boost.Parts.{cut, glue, cut-ne-nil, cut-Lacks, glue-cut}

abbrev pub starts : Text → Text → Bool
starts s [] = true
starts [] (b ∷ t) = false
starts (a ∷ s) (b ∷ t) = a == b && starts s t

starts→prefix : (s t : Text) → starts s t ≡ true → (rest : Text) × (s ≡ t ++ rest)
starts→prefix s [] h = (s, refl)
starts→prefix [] (b ∷ t) h = cc
starts→prefix (a ∷ s) (b ∷ t) h = go (starts→prefix s t (ground arith))
  where
    go : (rest : Text) × (s ≡ t ++ rest) → (rest : Text) × (a ∷ s ≡ (b ∷ t) ++ rest)
    go (rest, e) = (rest, ground arith)

starts-append : (t rest : Text) → starts (t ++ rest) t ≡ true
starts-append [] [] = refl
starts-append [] (c ∷ rest) = refl
starts-append (a ∷ t) rest = ground (arith, starts-append t rest)

pub starts_iff : (s t : Text) → (starts s t ≡ true) ↔ ((rest : Text) × (s ≡ t ++ rest))
starts_iff s t = (starts→prefix s t, λ (rest, e). rw e (starts-append t rest))

abbrev pub ends : Text → Text → Bool
ends [] t = text_eq [] t
ends (c ∷ s) t = text_eq (c ∷ s) t || ends s t

ends→suffix : (s t : Text) → ends s t ≡ true → (init : Text) × (s ≡ init ++ t)
ends→suffix [] t h = ([], text_eq→eq [] t h)
ends→suffix (c ∷ s) t h = go (text_eq (c ∷ s) t) refl (λ k. ends→suffix s t k)
  where
    longer : (init : Text) × (s ≡ init ++ t) → (init : Text) × (c ∷ s ≡ init ++ t)
    longer (init, e) = (c ∷ init, ap (◌∷◌ c) e)

    go :
        (v : Bool)
        → text_eq (c ∷ s) t ≡ v
        → (ends s t ≡ true → (init : Text) × (s ≡ init ++ t))
        → (init : Text) × (c ∷ s ≡ init ++ t)
    go true e ih = ([], text_eq→eq (c ∷ s) t e)
    go false e ih = longer (ih (ground arith))

ends_self : (t : Text) → ends t t ≡ true
ends_self [] = refl
ends_self (c ∷ t) = ground (arith, text_eq_refl t)

ends-append : (init t : Text) → ends (init ++ t) t ≡ true
ends-append [] t = ends_self t
ends-append (c ∷ init) t = ground (arith, ends-append init t)

pub ends_iff : (s t : Text) → (ends s t ≡ true) ↔ ((init : Text) × (s ≡ init ++ t))
ends_iff s t = (ends→suffix s t, λ (init, e). rw e (ends-append init t))

abbrev pub plain : StringAlgorithms
plain = record {
  split = cut;
  join = glue;
  starts_with = starts;
  ends_with = ends;
  split-ne-nil = cut-ne-nil;
  split-Lacks = cut-Lacks;
  join-split = glue-cut;
  join-glue = λ ps d. refl;
  starts_with_iff = starts_iff;
  ends_with_iff = ends_iff;
}
