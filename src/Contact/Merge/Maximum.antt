-- ===== src/Contact/Merge/Maximum.antt =====
-- The filters for the most domains and the most objects leave the contacts with the maximum.
use fred_libfred.Boost.{RegexEngine}
use fred_libfred.Common.{
  ℕ, ◌≤◌, ◌≡◌, refl, sym, ap, subst, ◌∙◌, ◌↔◌, ◌⊎◌, inl, inr, List, [], ◌∷◌, arith, Text, All, ◌==◌,
  false, Bool-cases,
}
use fred_libfred.Contact.Tables.{ContactDb, ContactRow, ContactSql}
use fred_libfred.Contact.Filters.{same_as_first, best_handles, listed, counted, filter_max}
use fred_libfred.Contact.Merge.Selection.{Among}

abbrev pub Counted : Text × ℕ → List (Text × ℕ) → Type 0
Counted y [] = ⊥
Counted y (x ∷ xs) = (y ≡ x) ⊎ Counted y xs

abbrev pub Descending : List (Text × ℕ) → Type 0
Descending [] = Unit
Descending (x ∷ xs) = All (λ y. y.1 ≤ x.1) xs × Descending xs

-- `ORDER BY … DESC` keeps the rows and orders them.
pub record IsOrderByDesc (order_by_desc : List (Text × ℕ) → List (Text × ℕ)) : Type 0 where
  pub rows : (y : Text × ℕ) (xs : List (Text × ℕ)) → Counted y xs ↔ Counted y (order_by_desc xs)
  pub descends : (xs : List (Text × ℕ)) → Descending (order_by_desc xs)

-- All rows are at most `n`.
abbrev pub AtMost : ℕ → List (Text × ℕ) → Type 0
AtMost n = All (λ y. y.1 ≤ n)

every :
    (P : Text × ℕ → Type 0) (xs : List (Text × ℕ))
    → ((y : Text × ℕ) → Counted y xs → P y)
    → All P xs
every P [] f = tt
every P (x ∷ xs) f = (f x (inl refl), every P xs (λ y m. f y (inr m)))

each : (P : Text × ℕ → Type 0) (xs : List (Text × ℕ)) (y : Text × ℕ) → All P xs → Counted y xs → P y
each P [] y a m = absurd m
each P (x ∷ xs) y (p, a) (inl e) = rw e p
each P (x ∷ xs) y (p, a) (inr m) = each P xs y a m

add :
    (best : ℕ) (h : Text) (n : ℕ) (rows : List (Text × ℕ)) (x : Text)
    → best ≡ n
    → Among x (h ∷ same_as_first best rows)
    → (Among x (same_as_first best rows) → Counted (x, best) rows)
    → Counted (x, best) ((h, n) ∷ rows)
add best h n rows x e (inl m) ih = inl (ap (λ y. (y, best)) m ∙ ap (λ k. (h, k)) e)
add best h n rows x e (inr m) ih = inr (ih m)

nothing :
    (best : ℕ) (h : Text) (n : ℕ) (rows : List (Text × ℕ))
    → (best == n) ≡ false
    → same_as_first best ((h, n) ∷ rows) ≡ []
unfolding same_as_first
nothing best h n rows e = ground arith

taken :
    (best : ℕ) (h : Text) (n : ℕ) (rows : List (Text × ℕ))
    → best ≡ n
    → same_as_first best ((h, n) ∷ rows) ≡ h ∷ same_as_first best rows
unfolding same_as_first
taken best h n rows e = ground arith

-- Rows in descending order: the ones equal to the bound stand first.
same_to :
    (best : ℕ) (rows : List (Text × ℕ)) (x : Text)
    → Among x (same_as_first best rows)
    → Counted (x, best) rows
unfolding same_as_first
same_to best [] x m = m
same_to best ((h, n) ∷ rows) x m = elim (Bool-cases (best == n)) [
  | inl e ↦
      add best h n rows x (ground arith) (subst (Among x) (taken best h n rows (ground arith)) m)
        (same_to best rows x)
  | inr e ↦ absurd (subst (Among x) (nothing best h n rows e) m)
]

same_of :
    (best : ℕ) (rows : List (Text × ℕ)) (x : Text)
    → Descending rows
    → AtMost best rows
    → Counted (x, best) rows
    → Among x (same_as_first best rows)
unfolding same_as_first
same_of best [] x d a m = m
same_of best ((h, n) ∷ rows) x (low, d) (le, a) (inl m) =
    subst (Among x) (sym (taken best h n rows (ap (λ y. y.1) m))) (inl (ap (λ y. y.0) m))
same_of best ((h, n) ∷ rows) x (low, d) (le, a) (inr m) =
    let at_most : best ≤ n = each (λ y. y.1 ≤ n) rows (x, best) low m in
    subst (Among x) (sym (taken best h n rows (omega arith))) (inr (same_of best rows x d a m))

best_iff :
    (rows : List (Text × ℕ)) (x : Text)
    → Descending rows
    → Among x (best_handles rows) ↔ ((n : ℕ) × Counted (x, n) rows × AtMost n rows)
unfolding best_handles
best_iff [] x d = (λ m. absurd m, λ (n, m, a). m)
best_iff ((h, n) ∷ rows) x (low, d) = (
  λ m. (n, same_to n ((h, n) ∷ rows) x m, (omega arith, low)),
  λ (k, m, (le, a)).
      let k_le : k ≤ n = each (λ y. y.1 ≤ n) ((h, n) ∷ rows) (x, k) (omega arith, low) m in
      same_of n ((h, n) ∷ rows) x (low, d) (omega arith, low)
        (subst (λ j. Counted (x, j) ((h, n) ∷ rows)) (omega arith) m),
)

module _ (r : RegexEngine) (q : ContactSql) (order : IsOrderByDesc q.order_by_desc)
    (db : ContactDb) where
  -- Where ORDER BY DESC keeps the rows and orders them, a filter by the most of something, given
  -- one handle or more, leaves exactly the handles of the contacts asked for whose count is not
  -- below that of any other of them.
  pub filter_max_iff :
      (count : ContactRow → ℕ) (h : Text) (hs : List Text) (x : Text)
      → Among x (filter_max r q db count (h ∷ hs)) ↔ (
          (n : ℕ) × Counted (x, n) (counted r q db count (listed r q db (h ∷ hs)))
          × AtMost n (counted r q db count (listed r q db (h ∷ hs))))
  unfolding filter_max
  filter_max_iff count h hs x =
      let rows = counted r q db count (listed r q db (h ∷ hs)) in
      let best = best_iff (q.order_by_desc rows) x (order.descends rows) in
      (
        λ m.
            let (n, c, a) = best.0 m in
            (
              n,
              (order.rows (x, n) rows).1 c,
              every (λ y. y.1 ≤ n) rows
                  (λ y i. each (λ y. y.1 ≤ n) (q.order_by_desc rows) y a ((order.rows y rows).0 i)),
            ),
        λ (n, c, a). best.1 (
          n,
          (order.rows (x, n) rows).0 c,
          every (λ y. y.1 ≤ n) (q.order_by_desc rows)
              (λ y i. each (λ y. y.1 ≤ n) rows y a ((order.rows y rows).1 i)),
        ),
      )
