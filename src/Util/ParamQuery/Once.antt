-- ===== src/Util/ParamQuery/Once.antt =====
-- A reusable parameter is passed once, however often it stands in the query.
use fred_libfred.Common.{
  ℕ, suc, ◌+◌, ◌≡◌, refl, sym, ap, ◌∙◌, List, [], ◌∷◌, ◌++◌, map, arith, Text, length,
  length-append, any, ◌==◌, if◌then◌else◌, true, false, ok, ok_injective, none, some, Option-cases,
  inl, inr,
}
use fred_libfred.Util.ParamQuery.{
  Element, ParamQuery, Query, Positions, position_of, placeholder, compose, get_query, pqe_none,
  pqe_string, pqe_param, pqe_param_repeatable,
}

module _ (V : Type 0) where
  -- How many parameters a query asks for, where the reusable ones of `seen` are already there.
  abbrev pub asked : List ℕ → List (Element V) → ℕ
  asked seen [] = 0
  asked seen (pqe_none ∷ es) = asked seen es
  asked seen (pqe_string s ∷ es) = asked seen es
  asked seen (pqe_param v t ∷ es) = suc (asked seen es)
  asked seen (pqe_param_repeatable v t lid ∷ es) =
      let again = asked seen es in
      let anew = asked (lid ∷ seen) es in if any (λ l. l == lid) seen then again else suc anew

  abbrev lids : Positions V → List ℕ
  lids m = map (λ x. x.0) m

  recorded :
      (lid n : ℕ) (m : Positions V)
      → position_of V lid m ≡ some n
      → any (λ l. l == lid) (lids m) ≡ true
  recorded lid n [] h = cc
  recorded lid n ((l, k) ∷ m) h = ground (arith, recorded lid n m)

  not_recorded :
      (lid : ℕ) (m : Positions V)
      → position_of V lid m ≡ none
      → any (λ l. l == lid) (lids m) ≡ false
  not_recorded lid [] h = refl
  not_recorded lid ((l, k) ∷ m) h = ground (arith, not_recorded lid m)

  module _ (decimal : ℕ → Text) where
    compose-asked :
        (es : List (Element V)) (query : Query V) (m : Positions V) {r : Query V}
        → compose V decimal es query m ≡ ok r
        → length r.params ≡ length query.params + asked (lids m) es
    unfolding compose
    compose-asked [] query m h = ap (λ x. length x.params) (sym (ok_injective h)) ∙ omega arith
    compose-asked (pqe_none ∷ es) query m h = cc
    compose-asked (pqe_string s ∷ es) query m h =
        compose-asked es (record query { sql = query.sql ++ s }) m h
    compose-asked (pqe_param v t ∷ es) query m h =
        omega (arith, compose-asked es _ m h, length-append query.params (v ∷ []))
    compose-asked (pqe_param_repeatable v t lid ∷ es) query m h =
        elim (Option-cases (position_of V lid m)) [
          | inl e ↦ rw (not_recorded lid m e) (
              omega (
                arith,
                compose-asked es _ ((lid, length query.params + 1) ∷ m) (rw (e, compose) at h),
                length-append query.params (v ∷ []),
              ))
          | inr (n, e) ↦ rw (recorded lid n m e) (
              compose-asked es (record query { sql = query.sql ++ placeholder V decimal n t }) m
                (rw (e, compose) at h))
        ]

    -- A query that is composed passes as many parameters as it has elements with a value, where
    -- the elements of one reusable parameter count once.
    pub get_query-asked :
        (q : ParamQuery V) {r : Query V}
        → get_query V decimal q ≡ ok r
        → length r.params ≡ asked [] q
    unfolding get_query
    get_query-asked q h = compose-asked q (record { sql = []; params = [] }) [] h ∙ omega arith
