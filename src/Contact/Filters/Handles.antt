-- ===== src/Contact/Filters/Handles.antt =====
-- The handles that a filter leaves are names of contacts whose handles it was given.
use fred_libfred.Boost.{RegexEngine}
use fred_libfred.Common.{
  ℕ, ◌≡◌, refl, inl, inr, List, [], ◌∷◌, map, arith, Text, text_eq, codes, text_eq→eq, filter, All,
  All-append, All-filter, if◌then◌else◌, Bool, true, false, Bool-cases, Option, none, some,
}
use fred_libfred.Contact.Tables.{ContactDb, ContactRow, ObjectRow, ContactSql}
use fred_libfred.Contact.Filters.{
  has_state, has_identity, has_mojeid_syntax, Filter, apply, same_as_first, best_handles, listed,
  is_listed, counted, filter_max, updates_of, all_updates, filter_recently_updated,
  other_registrars, all_other_registrars, filter_not_regcznic, name_of, filter_recently_created,
  identified_contact, identity_attached, conditionally_identified_contact, handle_mojeid_syntax,
  max_domains_bound, max_objects_bound, recently_updated, not_regcznic, recently_created,
}

-- What the selection relies on: `UPPER` twice is `UPPER`, and the order and the limit of a query
-- leave rows of the table.
pub record IsContactSql (q : ContactSql) : Type 1 where
  pub upper_upper : (s : Text) → q.upper (q.upper s) ≡ q.upper s
  pub order_by_desc-All :
      (P : Text × ℕ → Type 0) (rows : List (Text × ℕ)) → All P rows → All P (q.order_by_desc rows)
  pub last_created-All :
      (P : ContactRow → Type 0) (cs : List ContactRow)
      → All P cs
      → All P (elim (q.last_created cs) [ none ↦ [] | some c ↦ c ∷ [] ])

module _ (r : RegexEngine) (q : ContactSql) (laws : IsContactSql q) (db : ContactDb) where
  module _ (P : Text → Type 0) (up : (s : Text) → P s → P (q.upper s)) where
    listed_name :
        (handles : List Text) (c : ContactRow)
        → All P handles
        → is_listed r q db handles c ≡ true
        → P c.name
    listed_name [] c h e = cc
    listed_name (x ∷ xs) c (p, h) e = elim (Bool-cases (text_eq c.name (q.upper x))) [
      | inl t ↦ rw (text_eq→eq c.name (q.upper x) t) (up x p)
      | inr t ↦ listed_name xs c h (ground arith)
    ]

    filtered :
        (p : ContactRow → Bool) (cs : List ContactRow)
        → ((c : ContactRow) → p c ≡ true → P c.name)
        → All (λ c. P c.name) (filter p cs)
    filtered p [] f = tt
    filtered p (c ∷ cs) f = go (p c) refl (filtered p cs f)
      where
        go :
            (b : Bool)
            → p c ≡ b
            → All (λ c. P c.name) (filter p cs)
            → All (λ c. P c.name) (if b then c ∷ filter p cs else filter p cs)
        go true e h = (f c e, h)
        go false e h = h

    listed-All : (handles : List Text) → All P handles → All (λ c. P c.name) (listed r q db handles)
    listed-All handles h =
        filtered (is_listed r q db handles) db.contact (λ c e. listed_name handles c h e)

    counted-All :
        (count : ContactRow → ℕ) (cs : List ContactRow)
        → All (λ c. P c.name) cs
        → All (λ x. P x.0) (counted r q db count cs)
    counted-All count [] h = tt
    counted-All count (c ∷ cs) (p, h) = (p, counted-All count cs h)

    same_as_first-All :
        (n : ℕ) (rows : List (Text × ℕ)) → All (λ x. P x.0) rows → All P (same_as_first n rows)
    unfolding same_as_first
    same_as_first-All n [] h = tt
    same_as_first-All n ((x, k) ∷ rows) (p, h) = ground (arith, same_as_first-All n rows h)

    best_handles-All :
        (rows : List (Text × ℕ))
        → All (λ x. P x.0) rows
        → All P (best_handles (q.order_by_desc rows))
    unfolding best_handles
    best_handles-All rows h = go (q.order_by_desc rows) (laws.order_by_desc-All (λ x. P x.0) rows h)
      where
        go : (xs : List (Text × ℕ)) → All (λ x. P x.0) xs → All P (best_handles xs)
        go [] h = tt
        go ((x, n) ∷ xs) h = same_as_first-All n ((x, n) ∷ xs) h

    updates_of-All :
        (c : ContactRow) (os : List ObjectRow)
        → P c.name
        → All (λ x. P x.0) (updates_of r q db c os)
    updates_of-All c [] p = tt
    updates_of-All c (o ∷ os) p = ground (arith, updates_of-All c os p)

    all_updates-All :
        (cs : List ContactRow) → All (λ c. P c.name) cs → All (λ x. P x.0) (all_updates r q db cs)
    all_updates-All [] h = tt
    all_updates-All (c ∷ cs) (p, h) =
        All-append _ (updates_of r q db c db.object) _ (updates_of-All c db.object p)
          (all_updates-All cs h)

    repeated : (x : Text) (os : List ObjectRow) → P x → All P (map (λ o. x) os)
    repeated x [] p = tt
    repeated x (o ∷ os) p = (p, repeated x os p)

    all_other_registrars-All :
        (cs : List ContactRow) → All (λ c. P c.name) cs → All P (all_other_registrars r q db cs)
    all_other_registrars-All [] h = tt
    all_other_registrars-All (c ∷ cs) (p, h) =
        All-append P (other_registrars r q db c) _ (repeated c.name _ p)
          (all_other_registrars-All cs h)

    last-All :
        (cs : List ContactRow) → All (λ c. P c.name) cs → All P (name_of r q db (q.last_created cs))
    last-All cs h = go (q.last_created cs) (laws.last_created-All (λ c. P c.name) cs h)
      where
        go :
            (o : Option ContactRow)
            → All (λ c. P c.name) (elim o [ none ↦ [] | some c ↦ c ∷ [] ])
            → All P (name_of r q db o)
        go none h = tt
        go (some c) h = h

    -- What holds of the handles, and of a handle in upper case, holds of those that a filter leaves.
    pub apply-All :
        (f : Filter) (h : Text) (hs : List Text) → All P (h ∷ hs) → All P (apply r q db f (h ∷ hs))
    unfolding apply filter_max filter_recently_updated filter_not_regcznic filter_recently_created
    apply-All identified_contact h hs a =
        All-filter P (has_state r q db (codes "identifiedContact")) (h ∷ hs) a
    apply-All identity_attached h hs a = All-filter P (has_identity r q db) (h ∷ hs) a
    apply-All conditionally_identified_contact h hs a =
        All-filter P (has_state r q db (codes "conditionallyIdentifiedContact")) (h ∷ hs) a
    apply-All handle_mojeid_syntax h hs a = All-filter P (has_mojeid_syntax r q db) (h ∷ hs) a
    apply-All max_domains_bound h hs a =
        best_handles-All _ (counted-All _ _ (listed-All (h ∷ hs) a))
    apply-All max_objects_bound h hs a =
        best_handles-All _ (counted-All _ _ (listed-All (h ∷ hs) a))
    apply-All recently_updated h hs a =
        best_handles-All _ (all_updates-All _ (listed-All (h ∷ hs) a))
    apply-All not_regcznic h hs a = all_other_registrars-All _ (listed-All (h ∷ hs) a)
    apply-All recently_created h hs a = last-All _ (listed-All (h ∷ hs) a)
