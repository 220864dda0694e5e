-- ===== src/ObjectState/Changes.antt =====
-- Requests that stand at a moment, and an update that cancels those of a kind, said without the tests
-- of the queries.
use fred_libfred.Common.{
  ℕ, ◌≤◌, ◌≡◌, refl, ◌↔◌, ◌⊎◌, inl, inr, List, [], ◌∷◌, map, any, leb, ◌==◌, if◌then◌else◌, Bool,
  true, ◌&&◌, ◌||◌, Bool-cases, Option, none, some, arith, ==_iff,
}
use fred_libfred.ObjectState.{RequestRow}
use fred_libfred.ObjectState.Create.{is_null, starts_before}
use fred_libfred.ObjectState.Create.Windows.{IsBefore}

-- A request for the object that is not cancelled, has begun and is not over.
pub record Stands (now object_id : ℕ) (r : RequestRow) : Type 0 where
  pub not_canceled : r.canceled ≡ none
  pub of_object : r.object_id ≡ object_id
  pub begun : r.valid_from ≤ now
  pub not_over : IsBefore now r.valid_to

null_none : (x : Option ℕ) → is_null x ≡ true → x ≡ none
null_none none h = refl
null_none (some t) h = cc

over_iff :
    (now : ℕ) (to : Option ℕ) → ((is_null to || starts_before now to) ≡ true) ↔ IsBefore now to
over_iff now none = (λ h. tt, λ h. refl)
over_iff now (some to) = (λ h. ground arith, λ h. ground arith)

pub to_Stands :
    (now object_id : ℕ) (r : RequestRow)
    → is_null r.canceled ≡ true
    → (r.object_id == object_id) ≡ true
    → leb r.valid_from now ≡ true
    → (is_null r.valid_to || starts_before now r.valid_to) ≡ true
    → Stands now object_id r
to_Stands now object_id r c o f t = record {
  not_canceled = null_none r.canceled c;
  of_object = (==_iff r.object_id object_id).0 o;
  begun = ground arith;
  not_over = (over_iff now r.valid_to).0 t;
}

pub Stands-tests :
    (now object_id : ℕ) (r : RequestRow)
    → Stands now object_id r
    → (is_null r.canceled ≡ true)
      × ((r.object_id == object_id) ≡ true)
      × (leb r.valid_from now ≡ true)
      × ((is_null r.valid_to || starts_before now r.valid_to) ≡ true)
Stands-tests now object_id r s = (
  rw s.not_canceled refl,
  (==_iff r.object_id object_id).1 s.of_object,
  ground (arith, s.begun),
  (over_iff now r.valid_to).1 s.not_over,
)

-- Some row of the table.
abbrev pub Some : (RequestRow → Type 0) → List RequestRow → Type 0
Some A [] = ⊥
Some A (r ∷ rows) = A r ⊎ Some A rows

module _ (A : RequestRow → Type 0) (now : ℕ) where
  -- A row of the kind is cancelled now, with nothing else changed; another is as it was.
  abbrev pub Change : RequestRow → RequestRow → Type 0
  Change r r' = (A r × (r' ≡ record r { canceled = some now })) ⊎ ((A r → ⊥) × (r' ≡ r))

  abbrev pub Changes : List RequestRow → List RequestRow → Type 0
  Changes [] [] = Unit
  Changes [] (r' ∷ rows') = ⊥
  Changes (r ∷ rows) [] = ⊥
  Changes (r ∷ rows) (r' ∷ rows') = Change r r' × Changes rows rows'

  module _ (p : RequestRow → Bool) (iff : (r : RequestRow) → (p r ≡ true) ↔ A r) where
    changed : (r : RequestRow) → Change r (if p r then record r { canceled = some now } else r)
    changed r = elim (Bool-cases (p r)) [
      | inl e ↦ inl ((iff r).0 e, rw e refl)
      | inr e ↦ inr (λ a. cc ((iff r).1 a, e), rw e refl)
    ]

    pub map-Changes :
        (rows : List RequestRow)
        → Changes rows (map (λ r. if p r then record r { canceled = some now } else r) rows)
    map-Changes [] = tt
    map-Changes (r ∷ rows) = (changed r, map-Changes rows)

    is_one :
        (i : ℕ) (get : RequestRow → ℕ) (r : RequestRow)
        → ((p r && get r == i) ≡ true) ↔ (A r × (get r ≡ i))
    is_one i get r = (
      λ h. ((iff r).0 (ground arith), (==_iff (get r) i).0 (ground arith)),
      λ (a, e). rw ((iff r).1 a, (==_iff (get r) i).1 e) refl,
    )

    pub any-Some :
        (i : ℕ) (get : RequestRow → ℕ) (rows : List RequestRow)
        → (any (λ r. p r && get r == i) rows ≡ true) ↔ Some (λ r. A r × (get r ≡ i)) rows
    any-Some i get [] = (λ h. cc, λ h. absurd h)
    any-Some i get (r ∷ rows) = (
      λ h. elim (Bool-cases (p r && get r == i)) [
        | inl e ↦ inl ((is_one i get r).0 e)
        | inr e ↦ inr ((any-Some i get rows).0 (rw e at h))
      ],
      λ h. elim h [
        | inl a ↦ rw ((is_one i get r).1 a) refl
        | inr s ↦ ground (arith, (any-Some i get rows).1 s)
      ],
    )
