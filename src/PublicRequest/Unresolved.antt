-- ===== src/PublicRequest/Unresolved.antt =====
-- The number of the requests without a time of resolution, which falls with each turn of the loop over them.
use fred_libfred.Common.{
  ℕ, suc, ◌+◌, ◌≤◌, ◌<◌, ◌≡◌, refl, ap, subst, List, [], ◌∷◌, map, length, ◌==◌, filter, All,
  if◌then◌else◌, Bool, true, false, Bool-cases, ◌⊎◌, inl, inr, Option, none, some, arith,
}
use fred_libfred.PublicRequest.{TypeIface, RequestRow, Status, is_opened}
use fred_libfred.PublicRequest.Update.{
  UpdatePublicRequest, isset, updated_row, set_columns, new_resolve_time,
}
use fred_libfred.PublicRequest.Later.{Later, AllLater}
use fred_libfred.PublicRequest.UpdateAll.{}

-- A request that has no time of resolution is opened.
abbrev pub Pending : RequestRow → Type 0
Pending r = isset r.resolve_time ≡ false → is_opened r.status ≡ true

pub unresolved : List RequestRow → ℕ
unresolved [] = 0
unresolved (r ∷ rs) = unresolved rs + (if isset r.resolve_time then 0 else 1)

pub unresolved-le-length : (rs : List RequestRow) → unresolved rs ≤ length rs
unfolding unresolved
unresolved-le-length [] = omega arith
unresolved-le-length (r ∷ rs) = ground (arith, unresolved-le-length rs)

-- Without a time of resolution now, without one before.
Later-unresolved :
    (now : ℕ) (x y : RequestRow)
    → Later now x y
    → isset y.resolve_time ≡ false
    → isset x.resolve_time ≡ false
Later-unresolved now x y l h = elim (Bool-cases (is_opened x.status)) [
  | inr closed ↦ subst (λ t. isset t ≡ false) (l.still_closed closed) h
  | inl up ↦ elim (Bool-cases (is_opened y.status)) [
    | inl still ↦ subst (λ t. isset t ≡ false) (l.still_opened still) h
    | inr down ↦ cc (l.closed_now up down)
  ]
]

Later-Pending : (now : ℕ) (x y : RequestRow) → Later now x y → Pending x → Pending y
Later-Pending now x y l p h = elim (Bool-cases (is_opened y.status)) [
  | inl still ↦ still
  | inr down ↦ cc (l.closed_now (p (Later-unresolved now x y l h)) down)
]

module _ (now : ℕ) where
  pub AllLater-Pending :
      (xs ys : List RequestRow) → AllLater now xs ys → All Pending xs → All Pending ys
  AllLater-Pending [] [] l p = tt
  AllLater-Pending [] (y ∷ ys) l p = absurd l
  AllLater-Pending (x ∷ xs) [] l p = absurd l
  AllLater-Pending (x ∷ xs) (y ∷ ys) (l, ls) (p, ps) =
      (Later-Pending now x y l p, AllLater-Pending xs ys ls ps)

  pub AllLater-unresolved :
      (xs ys : List RequestRow) → AllLater now xs ys → unresolved ys ≤ unresolved xs
  unfolding unresolved
  AllLater-unresolved [] [] l = omega arith
  AllLater-unresolved [] (y ∷ ys) l = absurd l
  AllLater-unresolved (x ∷ xs) [] l = absurd l
  AllLater-unresolved (x ∷ xs) (y ∷ ys) (l, ls) =
      ground (arith, AllLater-unresolved xs ys ls, Later-unresolved now x y l)

  pub AllLater-length : (xs ys : List RequestRow) → AllLater now xs ys → length ys ≡ length xs
  AllLater-length [] [] l = refl
  AllLater-length [] (y ∷ ys) l = absurd l
  AllLater-length (x ∷ xs) [] l = absurd l
  AllLater-length (x ∷ xs) (y ∷ ys) (l, ls) = ap suc (AllLater-length xs ys ls)

abbrev pub Among : RequestRow → List RequestRow → Type 0
Among r [] = ⊥
Among r (x ∷ xs) = (r ≡ x) ⊎ Among r xs

-- `LIMIT 1` leaves a row, if there is one.
pub record IsLimitOne (limit_one : List RequestRow → Option RequestRow) : Type 0 where
  pub picks : (rows : List RequestRow) (r : RequestRow) → limit_one rows ≡ some r → Among r rows
  pub finds : (rows : List RequestRow) → limit_one rows ≡ none → rows ≡ []

cons_not_nil : {x : RequestRow} {xs : List RequestRow} → x ∷ xs ≡ [] → ⊥
cons_not_nil h = cc

taken :
    (p : RequestRow → Bool) (x : RequestRow) (rows : List RequestRow)
    → p x ≡ true
    → filter p (x ∷ rows) ≡ x ∷ filter p rows
taken p x rows e = rw e refl

pub filter-Among :
    (p : RequestRow → Bool) (r : RequestRow) (rows : List RequestRow)
    → Among r (filter p rows)
    → Among r rows × (p r ≡ true)
filter-Among p r [] m = absurd m
filter-Among p r (x ∷ rows) m = elim (Bool-cases (p x)) [
  | inl e ↦ elim (subst (Among r) (taken p x rows e) m) [
    | inl same ↦ (inl same, rw same e)
    | inr later ↦ let (i, q) = filter-Among p r rows later in (inr i, q)
  ]
  | inr e ↦ let (i, q) = filter-Among p r rows (rw e at m) in (inr i, q)
]

pub filter-none :
    (p : RequestRow → Bool) (rows : List RequestRow)
    → filter p rows ≡ []
    → All (λ r. p r ≡ false) rows
filter-none p [] h = tt
filter-none p (x ∷ rows) h = elim (Bool-cases (p x)) [
  | inl e ↦ absurd (cons_not_nil (rw e at h))
  | inr e ↦ (e, filter-none p rows (rw e at h))
]

module _ (types : TypeIface) (now : ℕ) (log : Option ℕ) (type : types.Iface)
    (u : UpdatePublicRequest) (id : ℕ) (s : Status) (sets : u.status ≡ some s) where
  row_time :
      (r : RequestRow)
      → (updated_row types now id type u log r).resolve_time
        ≡ (if r.id == id then new_resolve_time now (some s) r else r.resolve_time)
  unfolding set_columns
  row_time r = elim (Bool-cases (r.id == id)) [ inl e ↦ rw (e, sets) refl | inr e ↦ rw e refl ]

  unresolved-le :
      (rows : List RequestRow)
      → unresolved (map (updated_row types now id type u log) rows) ≤ unresolved rows
  unfolding unresolved
  unresolved-le [] = omega arith
  unresolved-le (r ∷ rows) = rw (row_time r) (ground (arith, unresolved-le rows))

  pub unresolved-lt :
      (r : RequestRow) (rows : List RequestRow)
      → Among r rows
      → r.id ≡ id
      → isset r.resolve_time ≡ false
      → is_opened r.status ≡ true
      → unresolved (map (updated_row types now id type u log) rows) < unresolved rows
  unfolding unresolved
  unresolved-lt r [] m e t o = absurd m
  unresolved-lt r (x ∷ rows) (inl same) e t o = rw (row_time x) (
      ground (
        arith,
        unresolved-le rows,
        ap (λ (y : RequestRow). y.id) same,
        ap (λ (y : RequestRow). y.resolve_time) same,
        ap (λ (y : RequestRow). y.status) same,
      ))
  unresolved-lt r (x ∷ rows) (inr m) e t o =
      rw (row_time x) (ground (arith, unresolved-lt r rows m e t o))
