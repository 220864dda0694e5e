-- ===== src/Util/ParamQuery/Positions.antt =====
-- The placeholders of a composed query and the parameters that stand at their positions.
use fred_libfred.Common.{
  ℕ, ◌+◌, ◌≡◌, refl, ap, ◌∙◌, List, [], ◌∷◌, ◌++◌, append_assoc, append-nil, arith, Text, length,
  get_elem?, get_elem?-append, get_elem?-length, All, All_mono, ◌==◌, ok, some, Option-cases, inl,
  inr, Bool-cases,
}
use fred_libfred.Util.ParamQuery.{
  Element, ParamQuery, Query, Positions, position_of, placeholder, compose, get_query, pqe_none,
  pqe_string, pqe_param, pqe_param_repeatable,
}

module _ (V : Type 0) (decimal : ℕ → Text) where
  -- The elements of a query, the text of its SQL command and the parameters `ps`: each element with
  -- a value is a placeholder `$n::type`, and that value is the `n`-th parameter, counted from 1.
  pub data Renders (ps : List V) : List (Element V) → Text → Type 0 where
    nothing : Renders ps [] []
    text :
        (s : Text) {es : List (Element V)} {rest : Text}
        → Renders ps es rest
        → Renders ps (pqe_string s ∷ es) (s ++ rest)
    plain :
        (v : V) (t : Text) (i : ℕ) {es : List (Element V)} {rest : Text}
        → get_elem? ps i ≡ some v
        → Renders ps es rest
        → Renders ps (pqe_param v t ∷ es) (placeholder V decimal (i + 1) t ++ rest)
    reusable :
        (v : V) (t : Text) (lid i : ℕ) {es : List (Element V)} {rest : Text}
        → get_elem? ps i ≡ some v
        → Renders ps es rest
        → Renders ps (pqe_param_repeatable v t lid ∷ es) (placeholder V decimal (i + 1) t ++ rest)

  -- What the library's constructors make: a tag other than `none`, and one value for each reusable
  -- parameter, which the address stands for.
  abbrev pub WellTagged : (ℕ → V) → Element V → Type 0
  WellTagged value_of pqe_none = ⊥
  WellTagged value_of (pqe_string s) = Unit
  WellTagged value_of (pqe_param v t) = Unit
  WellTagged value_of (pqe_param_repeatable v t lid) = v ≡ value_of lid

  -- A recorded position is one of the parameter's value.
  abbrev Holds : (ℕ → V) → List V → ℕ × ℕ → Type 0
  Holds value_of ps (lid, n) = (i : ℕ) × (n ≡ i + 1) × (get_elem? ps i ≡ some (value_of lid))

  module _ (value_of : ℕ → V) where
    Holds-append : (ps qs : List V) (x : ℕ × ℕ) → Holds value_of ps x → Holds value_of (ps ++ qs) x
    Holds-append ps qs (lid, n) (i, e, h) = (i, e, get_elem?-append ps qs i h)

    position_of-Holds :
        (ps : List V) (m : Positions V) (lid : ℕ) {n : ℕ}
        → All (Holds value_of ps) m
        → position_of V lid m ≡ some n
        → Holds value_of ps (lid, n)
    position_of-Holds ps [] lid h e = cc
    position_of-Holds ps ((l, k) ∷ m) lid (h, a) e =
        let (i, n, g) = h in
        elim (Bool-cases (l == lid)) [
          | inl b ↦ (i, ground arith, ground arith)
          | inr b ↦ position_of-Holds ps m lid a (ground arith)
        ]

    -- The composition of `es` after `query` succeeds, adds to its text and its parameters, and what
    -- it adds renders `es`.
    abbrev Composes : List (Element V) → Query V → Positions V → Type 0
    Composes es query m =
        (s : Text) × (qs : List V) × (compose V decimal es query m
          ≡ ok (record { sql = query.sql ++ s; params = query.params ++ qs }))
        × Renders (query.params ++ qs) es s

    done : (query : Query V) (m : Positions V) → Composes [] query m
    unfolding compose
    done query m = ([], [], rw (append-nil query.sql, append-nil query.params) refl, nothing)

    -- One element more: it adds `t` to the text and `new` to the parameters.
    step :
        (e : Element V) (es : List (Element V)) (query : Query V) (m m' : Positions V) (t : Text)
        (new : List V)
        → compose V decimal (e ∷ es) query m
          ≡ compose V decimal es (record { sql = query.sql ++ t; params = query.params ++ new }) m'
        → ((s : Text) (qs : List V)
            → Renders (query.params ++ (new ++ qs)) es s
            → Renders (query.params ++ (new ++ qs)) (e ∷ es) (t ++ s))
        → Composes es (record { sql = query.sql ++ t; params = query.params ++ new }) m'
        → Composes (e ∷ es) query m
    step e es query m m' t new same more (s, qs, made, r) = (
      t ++ s,
      new ++ qs,
      same
          ∙ (made
              ∙ ap (λ r. ok r)
                  (ap (λ x. record { sql = x; params = query.params ++ new ++ qs })
                      (append_assoc query.sql t s)
                    ∙ ap (λ y. record { sql = query.sql ++ (t ++ s); params = y })
                        (append_assoc query.params new qs))),
      more s qs (rw (append_assoc query.params new qs) at r),
    )

    -- The same for an element that adds no parameter.
    keep :
        (e : Element V) (es : List (Element V)) (query : Query V) (m : Positions V) (t : Text)
        → compose V decimal (e ∷ es) query m
          ≡ compose V decimal es (record query { sql = query.sql ++ t }) m
        → ((s : Text) (qs : List V)
            → Renders (query.params ++ qs) es s
            → Renders (query.params ++ qs) (e ∷ es) (t ++ s))
        → Composes es (record query { sql = query.sql ++ t }) m
        → Composes (e ∷ es) query m
    keep e es query m t same more (s, qs, made, r) = (
      t ++ s,
      qs,
      same
          ∙ (made
              ∙ ap (λ x. ok (record { sql = x; params = query.params ++ qs }))
                  (append_assoc query.sql t s)),
      more s qs r,
    )

    compose-Renders :
        (es : List (Element V)) (query : Query V) (m : Positions V)
        → All (WellTagged value_of) es
        → All (Holds value_of query.params) m
        → Composes es query m
    unfolding compose
    compose-Renders [] query m w h = done query m
    compose-Renders (pqe_none ∷ es) query m (w, ws) h = absurd w
    compose-Renders (pqe_string t ∷ es) query m (w, ws) h =
        keep (pqe_string t) es query m t refl (λ s qs r. text t r)
          (compose-Renders es (record query { sql = query.sql ++ t }) m ws h)
    compose-Renders (pqe_param v t ∷ es) query m (w, ws) h =
        step (pqe_param v t) es query m m (placeholder V decimal (length query.params + 1) t)
          (v ∷ []) refl
          (λ s qs r. plain v t (length query.params) (get_elem?-length query.params qs v) r)
          (compose-Renders es _ m ws (All_mono m (Holds-append query.params (v ∷ [])) h))
    compose-Renders (pqe_param_repeatable v t lid ∷ es) query m (w, ws) h =
        elim (Option-cases (position_of V lid m)) [
          | inl e ↦
              step (pqe_param_repeatable v t lid) es query m ((lid, length query.params + 1) ∷ m)
                (placeholder V decimal (length query.params + 1) t) (v ∷ []) (rw (e, compose) refl)
                (λ s qs r.
                  reusable v t lid (length query.params) (get_elem?-length query.params qs v) r)
                (compose-Renders es _ _ ws (
                  (length query.params, refl, rw (← w) (get_elem?-length query.params [] v)),
                  All_mono m (Holds-append query.params (v ∷ [])) h,
                ))
          | inr (n, e) ↦
              let (i, n_is, g) = position_of-Holds query.params m lid h e in
              keep (pqe_param_repeatable v t lid) es query m (placeholder V decimal n t)
                (rw (e, compose) refl)
                (λ s qs r.
                  rw n_is (reusable v t lid i (get_elem?-append query.params qs i (rw w g)) r))
                (compose-Renders es (record query { sql = query.sql ++ placeholder V decimal n t })
                  m ws h)
        ]

    -- A query of elements with a tag, in which a reusable parameter has one value, is composed:
    -- each text stands in the command as it is, and each parameter is a placeholder with the
    -- type of the element and the position at which the value of that element was passed.
    pub get_query-Renders :
        (q : ParamQuery V)
        → All (WellTagged value_of) q
        → (r : Query V) × (get_query V decimal q ≡ ok r) × Renders r.params q r.sql
    unfolding get_query
    get_query-Renders q w =
        let (s, qs, made, r) = compose-Renders q (record { sql = []; params = [] }) [] w tt in
        (record { sql = s; params = qs }, made, r)
