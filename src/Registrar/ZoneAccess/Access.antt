-- ===== src/Registrar/ZoneAccess/Access.antt =====
-- A registrar has access to a zone on exactly the days of its rows.
use fred_libfred.Common.{
  ℕ, ◌≡◌, refl, sym, ap, ◌∙◌, List, [], ◌∷◌, Text, ◌==◌, any, filter, Bool, ◌&&◌, Option, none,
  some, Result, ok, err, arith, ok_injective,
}
use fred_libfred.Registrar.ZoneAccess.{RegistrarRow, ZoneRow, AccessRow, Db, AccessError, Letters}
use fred_libfred.Registrar.ZoneAccess.Change.{is_registrar}
use fred_libfred.Registrar.ZoneAccess.Exclusive.{covers}
use fred_libfred.Registrar.ZoneAccess.History.{
  TimeInterval, compare_by_time, same_time, Invoices, InvoicesByZone, RegistrarZoneAccessHistory,
  insert_all, zone_rows, joined_rows, history_of, history_for, get_zone_access_history, find_zone,
  has_invoice, has_access,
}
use fred_libfred.Registrar.ZoneAccess.Inserted.{
  IsSameName, any-append, err_not_ok, holds, has, adds, all_inserted,
}

abbrev on_day : ℕ → TimeInterval
on_day d = record { from_date = d; to_date = some d }

-- A period is equivalent to a day exactly if it covers it.
same_time-covers :
    (a : AccessRow) (d : ℕ)
    → same_time (record { from_date = a.fromdate; to_date = a.todate }) (on_day d) ≡ covers a d
unfolding same_time compare_by_time
same_time-covers a d = ground arith

module _ (l : Letters) (same_name : Text → Text → Bool) (laws : IsSameName same_name) where
  -- The days of the rows of the registrar in the zones with the name.
  abbrev pub is_covered : ℕ → Text → ℕ → Db → Bool
  is_covered registrar zone d db =
      any
        (λ z.
          same_name z.fqdn zone
          && any (λ a. (a.zone == z.id && a.registrarid == registrar) && covers a d)
              db.registrarinvoice)
        db.zone

  zone_covered :
      (registrar d : ℕ) (zone : Text) (z : ZoneRow) (rows : List AccessRow)
      → any (adds l same_name laws zone (on_day d)) (zone_rows l same_name registrar z rows) ≡ (
          same_name z.fqdn zone
          && any (λ a. (a.zone == z.id && a.registrarid == registrar) && covers a d) rows)
  zone_covered registrar d zone z [] = ground arith
  zone_covered registrar d zone z (a ∷ rows) =
      ground (arith, zone_covered registrar d zone z rows, same_time-covers a d)

  joined_covered :
      (registrar d : ℕ) (zone : Text) (zs : List ZoneRow) (rows : List AccessRow)
      → any (adds l same_name laws zone (on_day d)) (joined_rows l same_name registrar zs rows)
        ≡ any
            (λ z.
              same_name z.fqdn zone
              && any (λ a. (a.zone == z.id && a.registrarid == registrar) && covers a d) rows)
            zs
  joined_covered registrar d zone [] rows = refl
  joined_covered registrar d zone (z ∷ zs) rows =
      any-append (adds l same_name laws zone (on_day d)) (zone_rows l same_name registrar z rows)
        (joined_rows l same_name registrar zs rows)
      ∙ rw (zone_covered registrar d zone z rows, joined_covered registrar d zone zs rows) refl

  has-holds :
      (d : ℕ) (o : Option Invoices)
      → has_invoice l same_name d o ≡ holds l same_name laws (on_day d) o
  has-holds d none = refl
  has-holds d (some invoices) = refl

  history_covered :
      (handle zone : Text) (d : ℕ) (h : RegistrarZoneAccessHistory)
      (m : Result AccessError InvoicesByZone) (rows : List (Text × AccessRow))
      → insert_all l same_name rows [] ≡ m
      → history_of l same_name handle m ≡ ok h
      → has_access l same_name h zone d ≡ any (adds l same_name laws zone (on_day d)) rows
  unfolding has_access
  history_covered handle zone d h (err e) rows inserted_all is_h = absurd (err_not_ok is_h)
  history_covered handle zone d h (ok m) rows inserted_all is_h =
      has-holds d (find_zone l same_name zone h.invoices_by_zone)
      ∙ ap (λ x. has l same_name laws zone (on_day d) x.invoices_by_zone) (sym (ok_injective is_h))
      ∙ all_inserted l same_name laws zone (on_day d) rows [] m inserted_all

  -- Where equality of names by strcasecmp is symmetric and transitive, one registrar is found
  -- and its history is returned (in the model it is not where a period ends before it starts,
  -- since a std::map with such a key is undefined), has_access of the history says true exactly
  -- on the days that are covered by a row of the registrar in a zone with that name.
  pub has_access-is_covered :
      (handle zone : Text) (d : ℕ) (db : Db) (r : RegistrarRow) (h : RegistrarZoneAccessHistory)
      → filter (is_registrar l handle) db.registrar ≡ r ∷ []
      → get_zone_access_history l same_name handle db ≡ ok h
      → has_access l same_name h zone d ≡ is_covered r.id zone d db
  unfolding get_zone_access_history history_for
  has_access-is_covered handle zone d db r h found is_h =
      history_covered handle zone d h _ (joined_rows l same_name r.id db.zone db.registrarinvoice)
        refl (rw (found, history_for) at is_h)
      ∙ joined_covered r.id d zone db.zone db.registrarinvoice
