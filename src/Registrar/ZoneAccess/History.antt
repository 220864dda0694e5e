-- ===== src/Registrar/ZoneAccess/History.antt =====
-- `GetZoneAccessHistory` and `has_access` (libfred/registrar/zone_access/get_zone_access_history.cc,
-- registrar_zone_access_history.cc). A `std::map` is the list of its
-- entries, found by the equivalence of keys that its comparison gives. Periods that start no later than
-- they end and share no day are ordered by `CompareByTime`, and those before and those after any period
-- are a prefix and a suffix of them, so the search of the map finds an equivalent key exactly if there
-- is one. For a period that ends before it starts nothing is defined: see `undefined_order`.
use fred_libfred.Common.{
  ℕ, List, [], ◌∷◌, ◌++◌, map, Text, ltb, ◌==◌, any, filter, not, if◌then◌else◌, Bool, true, false,
  ◌&&◌, Option, none, some, Result, ok, err,
}
use fred_libfred.Registrar.ZoneAccess.{
  RegistrarRow, ZoneRow, AccessRow, Db, AccessError, Letters, nonexistent_registrar,
  undefined_order, overlapping_zone_access_range,
}
use fred_libfred.Registrar.ZoneAccess.Change.{is_registrar}

pub record TimeInterval : Type 0 where
  pub from_date : ℕ
  pub to_date : Option ℕ

abbrev pub ends_before : Option ℕ → ℕ → Bool
ends_before none d = false
ends_before (some t) d = ltb t d

-- `CompareByTime`.
unfoldable pub compare_by_time : TimeInterval → TimeInterval → Bool
compare_by_time lhs rhs = ends_before lhs.to_date rhs.from_date

unfoldable pub same_time : TimeInterval → TimeInterval → Bool
unfolding compare_by_time
same_time lhs rhs = not (compare_by_time lhs rhs) && not (compare_by_time rhs lhs)

-- `InvoicesByTime`: the periods with the ids of their rows.
abbrev pub Invoices : Type 0
Invoices = List (TimeInterval × ℕ)

-- `invoices_by_zone`.
abbrev pub InvoicesByZone : Type 0
InvoicesByZone = List (Text × Invoices)

pub record RegistrarZoneAccessHistory : Type 0 where
  pub registrar_handle : Text
  pub invoices_by_zone : InvoicesByZone

-- `insert`; `none` if the key is there.
unfoldable pub insert_invoice : TimeInterval → ℕ → Invoices → Option Invoices
unfolding same_time
insert_invoice t id invoices =
    if any (λ x. same_time x.0 t) invoices then none else some (invoices ++ (t, id) ∷ [])

-- `same_name` is `strcasecmp(a, b) == 0`.
module _ (l : Letters) (same_name : Text → Text → Bool) where
  abbrev pub cons_zone : Text × Invoices → Option InvoicesByZone → Option InvoicesByZone
  cons_zone z none = none
  cons_zone z (some zs) = some (z ∷ zs)

  abbrev pub replace_invoices : Text → Option Invoices → InvoicesByZone → Option InvoicesByZone
  replace_invoices zone none zs = none
  replace_invoices zone (some invoices) zs = some ((zone, invoices) ∷ zs)

  -- `invoices_by_zone[zone_fqdn].insert({invoice_time, invoice_id})`.
  unfoldable pub insert_in_zone : Text → TimeInterval → ℕ → InvoicesByZone → Option InvoicesByZone
  unfolding insert_invoice
  insert_in_zone zone t id [] = replace_invoices zone (insert_invoice t id []) []
  insert_in_zone zone t id ((z, invoices) ∷ zs) =
      if same_name z zone
      then replace_invoices z (insert_invoice t id invoices) zs
      else cons_zone (z, invoices) (insert_in_zone zone t id zs)

  abbrev pub interval_of : AccessRow → TimeInterval
  interval_of a = record { from_date = a.fromdate; to_date = a.todate }

  -- The loop over the rows with an access, each with the name of its zone.
  unfoldable pub insert_all :
      List (Text × AccessRow) → InvoicesByZone → Result AccessError InvoicesByZone
  unfolding compare_by_time insert_in_zone
  insert_all [] m = ok m
  insert_all ((zone, a) ∷ rows) m =
      let t = interval_of a in
      if compare_by_time t t then err undefined_order else elim (insert_in_zone zone t a.id m) [
        | none ↦ err overlapping_zone_access_range
        | some m' ↦ insert_all rows m'
      ]

  -- The rows of the two joins that are not NULL.
  abbrev pub zone_rows : ℕ → ZoneRow → List AccessRow → List (Text × AccessRow)
  zone_rows registrar z rows =
      map (λ a. (z.fqdn, a)) (filter (λ a. a.zone == z.id && a.registrarid == registrar) rows)

  abbrev pub joined_rows : ℕ → List ZoneRow → List AccessRow → List (Text × AccessRow)
  joined_rows registrar [] rows = []
  joined_rows registrar (z ∷ zs) rows = zone_rows registrar z rows ++ joined_rows registrar zs rows

  abbrev pub history_of :
      Text → Result AccessError InvoicesByZone → Result AccessError RegistrarZoneAccessHistory
  history_of handle (err e) = err e
  history_of handle (ok m) = ok (record { registrar_handle = handle; invoices_by_zone = m })

  abbrev pub is_no_zone : List ZoneRow → Bool
  is_no_zone [] = true
  is_no_zone (z ∷ zs) = false

  -- The handles of registrars are unique. With no zone in the table the query answers no row, and a missing registrar is not seen.
  unfoldable pub history_for :
      Text → List RegistrarRow → Db → Result AccessError RegistrarZoneAccessHistory
  unfolding insert_all
  history_for handle [] db =
      if is_no_zone db.zone
      then ok (record { registrar_handle = handle; invoices_by_zone = [] })
      else err nonexistent_registrar
  history_for handle (r ∷ rs) db =
      history_of handle (insert_all (joined_rows r.id db.zone db.registrarinvoice) [])

  unfoldable pub get_zone_access_history : Text → Db → Result AccessError RegistrarZoneAccessHistory
  unfolding history_for
  get_zone_access_history handle db =
      history_for handle (filter (is_registrar l handle) db.registrar) db

  abbrev pub find_zone : Text → InvoicesByZone → Option Invoices
  find_zone zone [] = none
  find_zone zone ((z, invoices) ∷ zs) =
      if same_name z zone then some invoices else find_zone zone zs

  abbrev pub has_invoice : ℕ → Option Invoices → Bool
  has_invoice date none = false
  has_invoice date (some invoices) =
      any (λ x. same_time x.0 (record { from_date = date; to_date = some date })) invoices

  unfoldable pub has_access : RegistrarZoneAccessHistory → Text → ℕ → Bool
  unfolding same_time
  has_access zone_access zone_fqdn date =
      has_invoice date (find_zone zone_fqdn zone_access.invoices_by_zone)
