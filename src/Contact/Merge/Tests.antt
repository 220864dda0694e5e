-- ===== src/Contact/Merge/Tests.antt =====
-- Runs of the selection of a contact, of two.
use fred_libfred.Boost.{RegexEngine}
use fred_libfred.Common.{
  ℕ, ◌≤◌, All_mono, ◌≡◌, ◌↔◌, refl, inl, inr, List, [], ◌∷◌, arith, Text, codes, All, Bool, true,
  false, ltb, if◌then◌else◌, ok, Option, none, some,
}
use fred_libfred.Contact.Tables.{ContactDb, ContactRow, ContactSql}
use fred_libfred.Contact.Filters.{
  listed, counted, filter_max, all_domains_count, same_as_first, best_handles, apply,
  mcs_filter_max_domains_bound, get_default_contact_selection_filter_factory,
}
use fred_libfred.Contact.Filters.Handles.{IsContactSql}
use fred_libfred.Contact.Merge.{exec, select}
use fred_libfred.Contact.Merge.Selection.{Selected, Among, default_factory, exec-Selected}
use fred_libfred.Contact.Merge.Maximum.{IsOrderByDesc, Counted, AtMost, Descending, filter_max_iff}
use fred_libfred.Util.Factory.{add_producer, has_key, at, find}

abbrev engine : RegexEngine
engine = record { regex_match = λ s p. false; regex_search = λ s p. false }

-- Insertion into rows in descending order.
abbrev put : Text × ℕ → List (Text × ℕ) → List (Text × ℕ)
put y [] = y ∷ []
put y (x ∷ xs) = if ltb y.1 x.1 then x ∷ put y xs else y ∷ x ∷ xs

abbrev sort : List (Text × ℕ) → List (Text × ℕ)
sort [] = []
sort (x ∷ xs) = put x (sort xs)

abbrev last : List ContactRow → Option ContactRow
last [] = none
last (c ∷ cs) = some c

abbrev sql : ContactSql
sql = record { upper = λ s. s; to_lower_copy = λ s. s; order_by_desc = sort; last_created = last }

put-All :
    (P : Text × ℕ → Type 0) (y : Text × ℕ) (xs : List (Text × ℕ))
    → P y
    → All P xs
    → All P (put y xs)
put-All P y [] p h = (p, tt)
put-All P y (x ∷ xs) p (px, h) = ground (arith, put-All P y xs p h)

sort-All : (P : Text × ℕ → Type 0) (xs : List (Text × ℕ)) → All P xs → All P (sort xs)
sort-All P [] h = tt
sort-All P (x ∷ xs) (p, h) = put-All P x (sort xs) p (sort-All P xs h)

last-All :
    (P : ContactRow → Type 0) (cs : List ContactRow)
    → All P cs
    → All P (elim (last cs) [ none ↦ [] | some c ↦ c ∷ [] ])
last-All P [] h = tt
last-All P (c ∷ cs) (p, h) = (p, tt)

sql-IsContactSql : IsContactSql sql
sql-IsContactSql = record {
  upper_upper = λ s. refl;
  order_by_desc-All = sort-All;
  last_created-All = last-All;
}

put_iff : (z y : Text × ℕ) (xs : List (Text × ℕ)) → Counted z (y ∷ xs) ↔ Counted z (put y xs)
put_iff z y [] = (λ m. m, λ m. m)
put_iff z y (x ∷ xs) = go (ltb y.1 x.1) (put_iff z y xs)
  where
    over :
        Counted z (y ∷ x ∷ xs)
        → Counted z (y ∷ xs) ↔ Counted z (put y xs)
        → Counted z (x ∷ put y xs)
    over (inl e) i = inr (i.0 (inl e))
    over (inr (inl e)) i = inl e
    over (inr (inr m)) i = inr (i.0 (inr m))

    back :
        Counted z (x ∷ put y xs)
        → Counted z (y ∷ xs) ↔ Counted z (put y xs)
        → Counted z (y ∷ x ∷ xs)
    back (inl e) i = inr (inl e)
    back (inr m) i = swap (i.1 m)
      where
        swap : Counted z (y ∷ xs) → Counted z (y ∷ x ∷ xs)
        swap (inl e) = inl e
        swap (inr m) = inr (inr m)

    go :
        (b : Bool)
        → Counted z (y ∷ xs) ↔ Counted z (put y xs)
        → Counted z (y ∷ x ∷ xs) ↔ Counted z (if b then x ∷ put y xs else y ∷ x ∷ xs)
    go true i = (λ m. over m i, λ m. back m i)
    go false i = (λ m. m, λ m. m)

sort_iff : (y : Text × ℕ) (xs : List (Text × ℕ)) → Counted y xs ↔ Counted y (sort xs)
sort_iff y [] = (λ m. m, λ m. m)
sort_iff y (x ∷ xs) =
    let i = sort_iff y xs in
    let j = put_iff y x (sort xs) in
    (λ m. j.0 (to xs (sort xs) m i.0), λ m. to (sort xs) xs (j.1 m) i.1)
  where
    to :
        (us vs : List (Text × ℕ))
        → Counted y (x ∷ us)
        → (Counted y us → Counted y vs)
        → Counted y (x ∷ vs)
    to us vs (inl e) f = inl e
    to us vs (inr m) f = inr (f m)

put-Descending : (y : Text × ℕ) (xs : List (Text × ℕ)) → Descending xs → Descending (put y xs)
put-Descending y [] d = (tt, tt)
put-Descending y (x ∷ xs) (low, d) = go (ltb y.1 x.1) refl (put-Descending y xs d)
  where
    go :
        (b : Bool)
        → ltb y.1 x.1 ≡ b
        → Descending (put y xs)
        → Descending (if b then x ∷ put y xs else y ∷ x ∷ xs)
    go true e h = (put-All (λ z. z.1 ≤ x.1) y xs (ground arith) low, h)
    go false e h =
        ((ground arith, All_mono xs (λ z k. below z.1 x.1 y.1 k (ground arith)) low), (low, d))
      where
        below : (i j k : ℕ) → i ≤ j → j ≤ k → i ≤ k
        below i j k h g = omega arith

sort-Descending : (xs : List (Text × ℕ)) → Descending (sort xs)
sort-Descending [] = tt
sort-Descending (x ∷ xs) = put-Descending x (sort xs) (sort-Descending xs)

sort-IsOrderByDesc : IsOrderByDesc sort
sort-IsOrderByDesc = record { rows = sort_iff; descends = sort-Descending }

abbrev contact_a : ContactRow
contact_a = record { id = 1; name = codes "A"; crdate = 5 }

abbrev contact_b : ContactRow
contact_b = record { id = 2; name = codes "B"; crdate = 6 }

abbrev db : ContactDb
db = record {
  contact = contact_a ∷ contact_b ∷ [];
  object_state = [];
  contact_identity = [];
  domain = record { id = 9; registrant = 2 } ∷ [];
  domain_contact_map = [];
  nsset_contact_map = [];
  keyset_contact_map = [];
  object = [];
}

b_has_most :
    exec engine sql db (codes "A" ∷ codes "B" ∷ []) (mcs_filter_max_domains_bound ∷ [])
    ≡ ok (record { handle = codes "B"; filter = mcs_filter_max_domains_bound })
unfolding exec select get_default_contact_selection_filter_factory add_producer has_key at find
    apply filter_max all_domains_count best_handles same_as_first
b_has_most = refl

exec-Selected_example :
    Selected engine sql sql-IsContactSql db
      (default_factory engine sql sql-IsContactSql db)
      (codes "A" ∷ codes "B" ∷ [])
      (mcs_filter_max_domains_bound ∷ [])
      (exec engine sql db (codes "A" ∷ codes "B" ∷ []) (mcs_filter_max_domains_bound ∷ []))
exec-Selected_example =
    exec-Selected engine sql sql-IsContactSql db (codes "A" ∷ codes "B" ∷ [])
      (mcs_filter_max_domains_bound ∷ []) (λ e. cc)

filter_max_iff_example :
    Among
      (codes "B")
      (filter_max engine sql db (all_domains_count engine sql db) (codes "A" ∷ codes "B" ∷ []))
    ↔ ((n : ℕ) × Counted
          (codes "B", n)
          (counted engine sql db
            (all_domains_count engine sql db)
            (listed engine sql db (codes "A" ∷ codes "B" ∷ [])))
        × AtMost n (
            counted engine sql db
              (all_domains_count engine sql db)
              (listed engine sql db (codes "A" ∷ codes "B" ∷ []))))
filter_max_iff_example =
    filter_max_iff engine sql sort-IsOrderByDesc db (all_domains_count engine sql db) (codes "A")
      (codes "B" ∷ []) (codes "B")
