-- ===== src/Registrar/ZoneAccess/Inserted.antt =====
-- What a map holds after periods have been inserted: those that it held and those that were inserted.
use fred_libfred.Common.{
  ℕ, ◌≡◌, refl, sym, ap, ◌∙◌, List, [], ◌∷◌, ◌++◌, map, Text, any, if◌then◌else◌, Bool, true, false,
  ◌&&◌, ◌||◌, Bool-cases, Option-cases, inl, inr, Option, none, some, Result, ok, err, arith,
  ok_injective,
}
use fred_libfred.Registrar.ZoneAccess.{AccessRow, AccessError, Letters}
use fred_libfred.Registrar.ZoneAccess.History.{
  TimeInterval, compare_by_time, same_time, Invoices, InvoicesByZone, insert_invoice,
  insert_in_zone, replace_invoices, cons_zone, interval_of, insert_all, find_zone,
}

-- `strcasecmp(a, b) == 0` does not depend on the order, and goes on.
pub record IsSameName (same_name : Text → Text → Bool) : Type 0 where
  pub flips : (a b : Text) → same_name a b ≡ true → same_name b a ≡ true
  pub joins : (a b c : Text) → same_name a b ≡ true → same_name b c ≡ true → same_name a c ≡ true

pub any-append :
    {A : Type 0} (p : A → Bool) (xs ys : List A) → any p (xs ++ ys) ≡ (any p xs || any p ys)
any-append p [] ys = refl
any-append p (x ∷ xs) ys = ground (arith, any-append p xs ys)

pub any-map :
    {A B : Type 0} (p : B → Bool) (f : A → B) (xs : List A)
    → any p (map f xs) ≡ any (λ x. p (f x)) xs
any-map p f [] = refl
any-map p f (x ∷ xs) = ap (λ b. p (f x) || b) (any-map p f xs)

pub none_not_some : {A : Type 0} {x : A} → ◌≡◌ {A = Option A} none (some x) → ⊥
none_not_some h = cc

some_injective : {A : Type 0} {x y : A} → ◌≡◌ {A = Option A} (some x) (some y) → x ≡ y
some_injective h = cc

pub err_not_ok :
    {A : Type 0} {e : AccessError} {x : A} → ◌≡◌ {A = Result AccessError A} (err e) (ok x) → ⊥
err_not_ok h = cc

module _ (l : Letters) (same_name : Text → Text → Bool) (laws : IsSameName same_name) where
  -- Some period of the zone is equivalent to this one.
  abbrev pub holds : TimeInterval → Option Invoices → Bool
  holds q none = false
  holds q (some invoices) = any (λ x. same_time x.0 q) invoices

  abbrev pub has : Text → TimeInterval → InvoicesByZone → Bool
  has zone q m = holds q (find_zone l same_name zone m)

  abbrev pub adds : Text → TimeInterval → Text × AccessRow → Bool
  adds zone q x = same_name x.0 zone && same_time (interval_of l same_name x.1) q

  inserted :
      (t q : TimeInterval) (id : ℕ) (invoices invoices' : Invoices)
      → insert_invoice t id invoices ≡ some invoices'
      → any (λ x. same_time x.0 q) invoices'
        ≡ (any (λ x. same_time x.0 q) invoices || same_time t q)
  unfolding insert_invoice
  inserted t q id invoices invoices' h = elim (Bool-cases (any (λ x. same_time x.0 t) invoices)) [
    | inl e ↦ absurd (none_not_some (rw e at h))
    | inr e ↦
        let k : invoices ++ (t, id) ∷ [] ≡ invoices' = some_injective (rw e at h) in
        ap (any (λ x. same_time x.0 q)) (sym k)
        ∙ ground
            (arith, any-append (λ (x : TimeInterval × ℕ). same_time x.0 q) invoices ((t, id) ∷ []))
  ]

  replaced :
      (z : Text) (o : Option Invoices) (zs m' : InvoicesByZone)
      → replace_invoices l same_name z o zs ≡ some m'
      → (invoices : Invoices) × (o ≡ some invoices) × (m' ≡ (z, invoices) ∷ zs)
  replaced z none zs m' h = absurd (none_not_some h)
  replaced z (some invoices) zs m' h = (invoices, refl, sym (some_injective h))

  consed :
      (z : Text × Invoices) (o : Option InvoicesByZone) (m' : InvoicesByZone)
      → cons_zone l same_name z o ≡ some m'
      → (zs : InvoicesByZone) × (o ≡ some zs) × (m' ≡ z ∷ zs)
  consed z none m' h = absurd (none_not_some h)
  consed z (some zs) m' h = (zs, refl, sym (some_injective h))

  same_sides : (a b c : Text) → same_name a b ≡ true → same_name a c ≡ same_name b c
  same_sides a b c h = elim (Bool-cases (same_name a c)) [
    | inl e ↦ e ∙ sym (laws.joins b a c (laws.flips a b h) e)
    | inr e ↦ elim (Bool-cases (same_name b c)) [
      | inl k ↦ cc (laws.joins a b c h k)
      | inr k ↦ e ∙ sym k
    ]
  ]

  apart_names :
      (z a c : Text) → same_name z a ≡ false → same_name z c ≡ true → same_name a c ≡ false
  apart_names z a c h k = elim (Bool-cases (same_name a c)) [
    | inl e ↦ cc (laws.joins z c a k (laws.flips a c e), h)
    | inr e ↦ e
  ]

  has_head :
      (zone z : Text) (q : TimeInterval) (invoices : Invoices) (zs : InvoicesByZone)
      → has zone q ((z, invoices) ∷ zs)
        ≡ (if same_name z zone then any (λ x. same_time x.0 q) invoices else has zone q zs)
  has_head zone z q invoices zs = elim (Bool-cases (same_name z zone)) [
    | inl e ↦ rw e refl
    | inr e ↦ rw e refl
  ]

  pub zone_inserted :
      (zone0 zone : Text) (a : AccessRow) (q : TimeInterval) (m m' : InvoicesByZone)
      → insert_in_zone l same_name zone0 (interval_of l same_name a) a.id m ≡ some m'
      → has zone q m' ≡ (has zone q m || adds zone q (zone0, a))
  unfolding insert_in_zone
  zone_inserted zone0 zone a q [] m' h =
      let (invoices, o, is_m) =
        replaced zone0 (insert_invoice (interval_of l same_name a) a.id []) [] m' h in
      ap (has zone q) is_m
      ∙ (has_head zone zone0 q invoices []
          ∙ ground (arith, inserted (interval_of l same_name a) q a.id [] invoices o))
  zone_inserted zone0 zone a q ((z, invoices) ∷ zs) m' h = elim (Bool-cases (same_name z zone0)) [
    | inl e ↦
        let (invoices', o, is_m) =
          replaced z (insert_invoice (interval_of l same_name a) a.id invoices) zs m' (rw e at h) in
        ap (has zone q) is_m
        ∙ (has_head zone z q invoices' zs
            ∙ ground (
              arith,
              has_head zone z q invoices zs,
              inserted (interval_of l same_name a) q a.id invoices invoices' o,
              same_sides z zone0 zone e,
            ))
    | inr e ↦
        let (zs', o, is_m) =
          consed (z, invoices)
            (insert_in_zone l same_name zone0 (interval_of l same_name a) a.id zs) m' (rw e at h) in
        ap (has zone q) is_m
        ∙ (has_head zone z q invoices zs'
            ∙ ground (
              arith,
              has_head zone z q invoices zs,
              zone_inserted zone0 zone a q zs zs' o,
              apart_names z zone0 zone e,
            ))
  ]

  pub all_inserted :
      (zone : Text) (q : TimeInterval) (rows : List (Text × AccessRow)) (m m' : InvoicesByZone)
      → insert_all l same_name rows m ≡ ok m'
      → has zone q m' ≡ (has zone q m || any (adds zone q) rows)
  unfolding insert_all
  all_inserted zone q [] m m' h = ground (arith, ap (has zone q) (ok_injective h))
  all_inserted zone q ((z, a) ∷ rows) m m' h =
      let t = interval_of l same_name a in
      elim (Bool-cases (compare_by_time t t)) [
        | inl reversed ↦ absurd (err_not_ok (rw (reversed, insert_all) at h))
        | inr ordered ↦ elim (Option-cases (insert_in_zone l same_name z t a.id m)) [
          | inl e ↦ absurd (err_not_ok (rw (ordered, e, insert_all) at h))
          | inr (m1, e) ↦ ground (
            arith,
            all_inserted zone q rows m1 m' (rw (ordered, e, insert_all) at h),
            zone_inserted z zone a q m m1 e,
          )
        ]
      ]
