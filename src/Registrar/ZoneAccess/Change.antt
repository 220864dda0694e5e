-- ===== src/Registrar/ZoneAccess/Change.antt =====
-- `AddRegistrarZoneAccess`, `UpdateRegistrarZoneAccess` and `DeleteRegistrarZoneAccess`
-- (libfred/registrar/zone_access/add_registrar_zone_access.cc, update_registrar_zone_access.cc,
-- delete_registrar_zone_access.cc).
use fred_libfred.Common.{
  ℕ, suc, List, [], ◌∷◌, ◌++◌, map, Text, text_eq, leb, ◌==◌, any, filter, not, if◌then◌else◌, Bool,
  true, false, ◌&&◌, Option, none, some, Result, ok, err,
}
use fred_libfred.Registrar.ZoneAccess.{
  RegistrarRow, ZoneRow, AccessRow, Db, Date, day, special, AccessError, Operation, Letters,
  invalid_date_from, overlapping_zone_access_range, nonexistent_registrar, nonexistent_zone,
  no_update_data, invalid_zone_access_period, nonexistent_zone_access, duplicity_in_database,
  unexpected_number_of_rows,
}

-- `a IS NULL OR a >= d`.
abbrev pub null_or_from : ℕ → Option ℕ → Bool
null_or_from d none = true
null_or_from d (some a) = leb d a

-- A date that is set and is a day.
abbrev pub date_or_null : Option Date → Option ℕ
date_or_null none = none
date_or_null (some special) = none
date_or_null (some (day d)) = some d

module _ (l : Letters) where
  -- `JOIN registrar`, `JOIN zone` and the conditions on them.
  abbrev pub is_registrar : Text → RegistrarRow → Bool
  is_registrar handle r = text_eq r.handle (l.upper handle)

  abbrev pub is_zone : Text → ZoneRow → Bool
  is_zone fqdn z = text_eq z.fqdn (l.lower fqdn)

  abbrev pub is_access_of : Text → Text → Db → AccessRow → Bool
  is_access_of handle fqdn db a =
      any (λ r. r.id == a.registrarid && is_registrar handle r) db.registrar
      && any (λ z. z.id == a.zone && is_zone fqdn z) db.zone

  -- `overlapping_zone_access`.
  unfoldable pub overlaps_new : Text → Text → ℕ → Option ℕ → Db → AccessRow → Bool
  overlaps_new handle fqdn from_date to_date db a =
      is_access_of handle fqdn db a
      && (null_or_from from_date a.todate && null_or_from a.fromdate to_date)

  -- The scalar subquery; the names of zones are unique.
  abbrev pub zone_id : Text → List ZoneRow → Option ℕ
  zone_id fqdn [] = none
  zone_id fqdn (z ∷ zs) = if is_zone fqdn z then some z.id else zone_id fqdn zs

  abbrev pub new_access : ℕ → ℕ → ℕ → Option ℕ → Db → AccessRow
  new_access registrar zone from_date to_date db = record {
    id = db.next_id;
    registrarid = registrar;
    zone = zone;
    fromdate = from_date;
    todate = to_date;
  }

  abbrev pub with_access : AccessRow → Db → Db
  with_access a db = record db {
    registrarinvoice = db.registrarinvoice ++ a ∷ [];
    next_id = suc db.next_id;
  }

  -- The insertion for the registrars found: one row for each of them; the column `zone` takes no
  -- NULL.
  unfoldable pub insert_access : ℕ → Option ℕ → Option ℕ → List RegistrarRow → Operation ℕ
  insert_access from_date to_date zone_found [] db = (err nonexistent_registrar, db)
  insert_access from_date to_date none (r ∷ rs) db = (err nonexistent_zone, db)
  insert_access from_date to_date (some z) (r ∷ []) db =
      (ok db.next_id, with_access (new_access r.id z from_date to_date db) db)
  insert_access from_date to_date (some z) (r ∷ s ∷ rs) db = (err duplicity_in_database, db)

  unfoldable pub add_registrar_zone_access : Text → Text → Date → Option Date → Operation ℕ
  unfolding overlaps_new insert_access
  add_registrar_zone_access handle fqdn special to db = (err invalid_date_from, db)
  add_registrar_zone_access handle fqdn (day from_date) to db =
      let to_date = date_or_null to in
      if any (overlaps_new handle fqdn from_date to_date db) db.registrarinvoice
      then (err overlapping_zone_access_range, db)
      else insert_access from_date to_date (zone_id fqdn db.zone)
          (filter (is_registrar handle) db.registrar) db

abbrev pub or_old : Option ℕ → ℕ → ℕ
or_old none old = old
or_old (some new) old = new

abbrev pub or_old_end : Option ℕ → Option ℕ → Option ℕ
or_old_end none old = old
or_old_end (some new) old = some new

unfoldable pub set_dates : Option ℕ → Option ℕ → AccessRow → AccessRow
set_dates from to a = record a {
  fromdate = or_old from a.fromdate;
  todate = or_old_end to a.todate;
}

-- The `EXISTS` of the query, for the row `lhs` after the update.
unfoldable pub overlaps_other : AccessRow → AccessRow → Bool
overlaps_other lhs rhs =
    rhs.registrarid == lhs.registrarid
    && (rhs.zone == lhs.zone
        && (not (rhs.id == lhs.id)
            && (null_or_from lhs.fromdate rhs.todate && null_or_from rhs.fromdate lhs.todate)))

-- `lhs.todate < lhs.fromdate`, not NULL.
abbrev pub ends_before_start : AccessRow → Bool
ends_before_start a = not (null_or_from a.fromdate a.todate)

abbrev pub set_access : ℕ → Option ℕ → Option ℕ → AccessRow → AccessRow
set_access id from to a = if a.id == id then set_dates from to a else a

abbrev pub with_dates : ℕ → Option ℕ → Option ℕ → Db → Db
with_dates id from to db = record db {
  registrarinvoice = map (set_access id from to) db.registrarinvoice;
}

-- What the rows of `RETURNING` lead to; the other rows are those before the update.
unfoldable pub update_verdict : List AccessRow → List AccessRow → Result AccessError ℕ
unfolding overlaps_other
update_verdict rows [] = err nonexistent_zone_access
update_verdict rows (a ∷ []) =
    if any (overlaps_other a) rows
    then err overlapping_zone_access_range
    else if ends_before_start a
    then err invalid_zone_access_period
    else ok a.id
update_verdict rows (a ∷ b ∷ as') = err unexpected_number_of_rows

abbrev pub is_unset : Option ℕ → Bool
is_unset none = true
is_unset (some d) = false

unfoldable pub update_registrar_zone_access : ℕ → Option Date → Option Date → Operation ℕ
unfolding set_dates update_verdict
update_registrar_zone_access id from to db =
    let from_date = date_or_null from in
    let to_date = date_or_null to in
    let changed =
      map (set_dates from_date to_date) (filter (λ a. a.id == id) db.registrarinvoice) in
    if is_unset from_date && is_unset to_date
    then (err no_update_data, db)
    else (update_verdict db.registrarinvoice changed, with_dates id from_date to_date db)

unfoldable pub delete_verdict : List AccessRow → Result AccessError ℕ
delete_verdict [] = err nonexistent_zone_access
delete_verdict (a ∷ []) = ok a.id
delete_verdict (a ∷ b ∷ as') = err unexpected_number_of_rows

unfoldable pub delete_registrar_zone_access : ℕ → Operation ℕ
unfolding delete_verdict
delete_registrar_zone_access id db = (
  delete_verdict (filter (λ a. a.id == id) db.registrarinvoice),
  record db { registrarinvoice = filter (λ a. not (a.id == id)) db.registrarinvoice },
)
