-- ===== src/Registrar/ZoneAccess/Exclusive.antt =====
-- No day of a registrar in a zone is covered by two periods of access.
use fred_libfred.Common.{
  ℕ, ◌≡◌, refl, sym, ap, subst, List, [], ◌∷◌, Text, leb, ◌==◌, any, All, any-false→All, filter,
  Bool, true, false, ◌&&◌, Bool-cases, inl, inr, Option, none, some, Result, ok, err, arith,
}
use fred_libfred.Registrar.Periods
use fred_libfred.Registrar.Periods.{Apart-sym, filter-Disjoint, append-Disjoint}
use fred_libfred.Registrar.ZoneAccess.{
  RegistrarRow, ZoneRow, AccessRow, Db, Date, day, special, Letters, AccessError,
}
use fred_libfred.Registrar.ZoneAccess.Change.{
  null_or_from, date_or_null, is_registrar, is_zone, overlaps_new, zone_id, new_access,
  insert_access, add_registrar_zone_access,
}

abbrev pub registrar_in_zone : AccessRow → ℕ × ℕ
registrar_in_zone a = (a.registrarid, a.zone)

abbrev pub covers : AccessRow → ℕ → Bool
covers a d = leb a.fromdate d && null_or_from d a.todate

abbrev pub Apart : AccessRow → AccessRow → Type 0
Apart = Periods.Apart registrar_in_zone covers

abbrev pub Disjoint : List AccessRow → Type 0
Disjoint = Periods.Disjoint registrar_in_zone covers

pub thrown :
    {e : AccessError} {i : ℕ} {db db' : Db}
    → ◌≡◌ {A = Result AccessError ℕ × Db} (err e, db) (ok i, db')
    → ⊥
thrown h = cc

module _ (l : Letters) where
  found_registrar :
      (handle : Text) (rows : List RegistrarRow) (r : RegistrarRow) (rs : List RegistrarRow)
      → filter (is_registrar l handle) rows ≡ r ∷ rs
      → any (λ x. x.id == r.id && is_registrar l handle x) rows ≡ true
  found_registrar handle [] r rs h = cc
  found_registrar handle (x ∷ rows) r rs h = ground (arith, found_registrar handle rows r rs)

  found_zone :
      (fqdn : Text) (rows : List ZoneRow) (z : ℕ)
      → zone_id l fqdn rows ≡ some z
      → any (λ x. x.id == z && is_zone l fqdn x) rows ≡ true
  found_zone fqdn [] z h = cc
  found_zone fqdn (x ∷ rows) z h = ground (arith, found_zone fqdn rows z)

  -- A new period that overlaps none is apart from all.
  new-Apart :
      (handle fqdn : Text) (from_date : ℕ) (to_date : Option ℕ) (db : Db) (a x : AccessRow)
      → any (λ r. r.id == a.registrarid && is_registrar l handle r) db.registrar ≡ true
      → any (λ z. z.id == a.zone && is_zone l fqdn z) db.zone ≡ true
      → a.fromdate ≡ from_date
      → a.todate ≡ to_date
      → overlaps_new l handle fqdn from_date to_date db x ≡ false
      → Apart x a
  unfolding overlaps_new
  new-Apart handle fqdn from_date to_date db a x reg zone from to free d same on =
      let same_reg : x.registrarid ≡ a.registrarid = ap (λ k. k.0) same in
      let same_zone : x.zone ≡ a.zone = ap (λ k. k.1) same in
      let reg' =
        subst (λ i. any (λ r. r.id == i && is_registrar l handle r) db.registrar ≡ true)
          (sym same_reg) reg in
      let zone' =
        subst (λ i. any (λ z. z.id == i && is_zone l fqdn z) db.zone ≡ true) (sym same_zone) zone in
      ground arith

  each_Apart :
      (handle fqdn : Text) (from_date : ℕ) (to_date : Option ℕ) (db : Db) (a : AccessRow)
      (rows : List AccessRow)
      → any (λ r. r.id == a.registrarid && is_registrar l handle r) db.registrar ≡ true
      → any (λ z. z.id == a.zone && is_zone l fqdn z) db.zone ≡ true
      → a.fromdate ≡ from_date
      → a.todate ≡ to_date
      → All (λ x. overlaps_new l handle fqdn from_date to_date db x ≡ false) rows
      → All (λ x. Apart x a) rows
  each_Apart handle fqdn from_date to_date db a [] reg zone from to free = tt
  each_Apart handle fqdn from_date to_date db a (x ∷ rows) reg zone from to (free, rest) = (
    new-Apart handle fqdn from_date to_date db a x reg zone from to free,
    each_Apart handle fqdn from_date to_date db a rows reg zone from to rest,
  )

  inserted-Disjoint :
      (handle fqdn : Text) (from_date : ℕ) (to_date : Option ℕ) (db db' : Db) (id : ℕ)
      (zone : Option ℕ) (found : List RegistrarRow)
      → zone_id l fqdn db.zone ≡ zone
      → filter (is_registrar l handle) db.registrar ≡ found
      → any (overlaps_new l handle fqdn from_date to_date db) db.registrarinvoice ≡ false
      → Disjoint db.registrarinvoice
      → insert_access l from_date to_date zone found db ≡ (ok id, db')
      → Disjoint db'.registrarinvoice
  unfolding insert_access
  inserted-Disjoint handle fqdn from_date to_date db db' id z [] hz hr free disjoint h = cc
  inserted-Disjoint handle fqdn from_date to_date db db' id none (r ∷ rs) hz hr free disjoint h = cc
  inserted-Disjoint handle fqdn from_date to_date db db' id (some z) (r ∷ s ∷ rs) hz hr free
        disjoint h =
      cc
  inserted-Disjoint handle fqdn from_date to_date db db' id (some z) (r ∷ []) hz hr free disjoint
        h =
      let a = new_access l r.id z from_date to_date db in
      subst (λ t. Disjoint t.registrarinvoice) (ap (λ m. m.1) h)
        (append-Disjoint registrar_in_zone covers a db.registrarinvoice
          (each_Apart handle fqdn from_date to_date db a db.registrarinvoice
            (found_registrar handle db.registrar r [] hr) (found_zone fqdn db.zone z hz) refl refl
            (any-false→All (overlaps_new l handle fqdn from_date to_date db) db.registrarinvoice
              free))
          disjoint)

  pub add-Disjoint :
      (handle fqdn : Text) (from : Date) (to : Option Date) (db db' : Db) (id : ℕ)
      → Disjoint db.registrarinvoice
      → add_registrar_zone_access l handle fqdn from to db ≡ (ok id, db')
      → Disjoint db'.registrarinvoice
  unfolding add_registrar_zone_access
  add-Disjoint handle fqdn special to db db' id disjoint h = cc
  add-Disjoint handle fqdn (day from) to db db' id disjoint h =
      elim (Bool-cases
        (any (overlaps_new l handle fqdn from (date_or_null to) db) db.registrarinvoice)) [
          | inl e ↦ absurd (thrown (rw e at h))
          | inr e ↦
              inserted-Disjoint handle fqdn from (date_or_null to) db db' id _ _ refl refl e
                disjoint (rw e at h)
        ]
