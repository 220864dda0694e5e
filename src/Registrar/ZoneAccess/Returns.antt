-- ===== src/Registrar/ZoneAccess/Returns.antt =====
-- Where periods are in order and share no day, the history is returned.
use fred_libfred.Common.{
  ℕ, ◌≡◌, refl, sym, ◌∙◌, List, [], ◌∷◌, ◌++◌, Text, ◌==◌, ==_iff, filter, All, All-append,
  All_mono, Bool, true, false, ◌&&◌, Bool-cases, inl, inr, some, ok, arith,
}
use fred_libfred.Registrar.ZoneAccess.{RegistrarRow, ZoneRow, AccessRow, Db, Letters}
use fred_libfred.Registrar.ZoneAccess.Change.{is_registrar, null_or_from}
use fred_libfred.Registrar.ZoneAccess.Exclusive.{Apart, Disjoint}
use fred_libfred.Registrar.ZoneAccess.History.{
  TimeInterval, compare_by_time, same_time, InvoicesByZone, RegistrarZoneAccessHistory,
  insert_invoice, insert_in_zone, interval_of, insert_all, zone_rows, joined_rows, history_for,
  get_zone_access_history, has_access,
}
use fred_libfred.Registrar.ZoneAccess.Inserted.{IsSameName, has, adds, zone_inserted}
use fred_libfred.Registrar.ZoneAccess.Access.{is_covered, has_access-is_covered}

-- The period does not end before it starts.
abbrev pub IsProper : AccessRow → Type 0
IsProper a = null_or_from a.fromdate a.todate ≡ true

-- Periods of one registrar in one zone that share no day are no equivalent keys.
Apart-times :
    (a b : AccessRow)
    → Apart a b
    → a.registrarid ≡ b.registrarid
    → a.zone ≡ b.zone
    → IsProper a
    → IsProper b
    → same_time
        (record { from_date = a.fromdate; to_date = a.todate })
        (record { from_date = b.fromdate; to_date = b.todate })
      ≡ false
unfolding same_time compare_by_time
Apart-times a b apart r z pa pb =
    let key : ◌≡◌ {A = ℕ × ℕ} (a.registrarid, a.zone) (b.registrarid, b.zone) = rw (r, z) refl in
    let at_a = apart a.fromdate key in let at_b = apart b.fromdate key in ground (arith, at_a, at_b)

-- No two zones have the same name.
abbrev pub DistinctNames : (Text → Text → Bool) → List ZoneRow → Type 0
DistinctNames same_name [] = Unit
DistinctNames same_name (z ∷ zs) =
    All (λ w. same_name z.fqdn w.fqdn ≡ false) zs × DistinctNames same_name zs

and_false : (x : Bool) → (x && false) ≡ false
and_false true = refl
and_false false = refl

module _ (l : Letters) (same_name : Text → Text → Bool) (laws : IsSameName same_name) where
  inserts :
      (zone : Text) (t : TimeInterval) (id : ℕ) (m : InvoicesByZone)
      → has l same_name laws zone t m ≡ false
      → (m' : InvoicesByZone) × (insert_in_zone l same_name zone t id m ≡ some m')
  unfolding insert_in_zone insert_invoice
  inserts zone t id [] h = ((zone, (t, id) ∷ []) ∷ [], refl)
  inserts zone t id ((z, invoices) ∷ zs) h = elim (Bool-cases (same_name z zone)) [
    | inl e ↦ let free = rw e at h in ((z, invoices ++ (t, id) ∷ []) ∷ zs, rw (e, free) refl)
    | inr e ↦
        let (zs', o) = inserts zone t id zs (rw e at h) in ((z, invoices) ∷ zs', rw (e, o) refl)
  ]

  abbrev period : Text × AccessRow → TimeInterval
  period x = interval_of l same_name x.1

  abbrev Clear : Text × AccessRow → Text × AccessRow → Type 0
  Clear x y = adds l same_name laws y.0 (period y) x ≡ false

  abbrev Pairs : List (Text × AccessRow) → Type 0
  Pairs [] = Unit
  Pairs (x ∷ xs) = All (Clear x) xs × Pairs xs

  still_free :
      (x : Text × AccessRow) (m m' : InvoicesByZone) (rows : List (Text × AccessRow))
      → insert_in_zone l same_name x.0 (period x) x.1.id m ≡ some m'
      → All (λ y. has l same_name laws y.0 (period y) m ≡ false) rows
      → All (Clear x) rows
      → All (λ y. has l same_name laws y.0 (period y) m' ≡ false) rows
  still_free x m m' [] h free clear = tt
  still_free x m m' (y ∷ rows) h (f, free) (c, clear) = (
    zone_inserted l same_name laws x.0 y.0 x.1 (period y) m m' h ∙ rw (f, c) refl,
    still_free x m m' rows h free clear,
  )

  ordered :
      (a : AccessRow)
      → IsProper a
      → compare_by_time (interval_of l same_name a) (interval_of l same_name a) ≡ false
  unfolding compare_by_time
  ordered a p = ground arith

  loop_returns :
      (rows : List (Text × AccessRow)) (m : InvoicesByZone)
      → All (λ x. IsProper x.1) rows
      → All (λ x. has l same_name laws x.0 (period x) m ≡ false) rows
      → Pairs rows
      → (m' : InvoicesByZone) × (insert_all l same_name rows m ≡ ok m')
  unfolding insert_all
  loop_returns [] m proper free pairs = (m, refl)
  loop_returns ((z, a) ∷ rows) m (p, proper) (f, free) (c, pairs) =
      let (m1, e) = inserts z (period (z, a)) a.id m f in
      let (m', rest) = loop_returns rows m1 proper (still_free (z, a) m m1 rows e free c) pairs in
      (m', rw (ordered a p, e) rest)

  module _ (registrar : ℕ) where
    -- What holds of the rows of the registrar in a zone holds of those joined with it.
    All-zone_rows :
        (P : Text × AccessRow → Type 0) (z : ZoneRow) (rows : List AccessRow)
        → All (λ b. b.zone ≡ z.id → b.registrarid ≡ registrar → P (z.fqdn, b)) rows
        → All P (zone_rows l same_name registrar z rows)
    All-zone_rows P z [] h = tt
    All-zone_rows P z (b ∷ rows) (p, h) =
        elim (Bool-cases (b.zone == z.id && b.registrarid == registrar)) [
          | inl e ↦ rw e (
            p ((==_iff b.zone z.id).0 (ground arith))
                ((==_iff b.registrarid registrar).0 (ground arith)),
            All-zone_rows P z rows h,
          )
          | inr e ↦ rw e (All-zone_rows P z rows h)
        ]

    All-joined_rows :
        (P : Text × AccessRow → Type 0) (zs : List ZoneRow) (rows : List AccessRow)
        → All (λ z. All (λ b. P (z.fqdn, b)) rows) zs
        → All P (joined_rows l same_name registrar zs rows)
    All-joined_rows P [] rows h = tt
    All-joined_rows P (z ∷ zs) rows (p, h) =
        All-append P (zone_rows l same_name registrar z rows)
          (joined_rows l same_name registrar zs rows)
          (All-zone_rows P z rows (All_mono rows (λ b p _ _. p) p)) (All-joined_rows P zs rows h)

    all_of : (P : AccessRow → Type 0) (rows : List AccessRow) → ((b : AccessRow) → P b) → All P rows
    all_of P [] f = tt
    all_of P (b ∷ rows) f = (f b, all_of P rows f)

    clear_row :
        (z : ZoneRow) (a b : AccessRow)
        → Apart a b
        → IsProper a
        → IsProper b
        → a.zone ≡ z.id
        → a.registrarid ≡ registrar
        → b.zone ≡ z.id
        → b.registrarid ≡ registrar
        → Clear (z.fqdn, a) (z.fqdn, b)
    clear_row z a b apart pa pb az ar bz br =
        rw (Apart-times a b apart (ar ∙ sym br) (az ∙ sym bz) pa pb)
          (and_false (same_name z.fqdn z.fqdn))

    row_clears :
        (z : ZoneRow) (a : AccessRow) (rows : List AccessRow)
        → All (Apart a) rows
        → All IsProper rows
        → IsProper a
        → a.zone ≡ z.id
        → a.registrarid ≡ registrar
        → All (λ b. b.zone ≡ z.id → b.registrarid ≡ registrar → Clear (z.fqdn, a) (z.fqdn, b)) rows
    row_clears z a [] apart proper p az ar = tt
    row_clears z a (b ∷ rows) (x, apart) (q, proper) p az ar =
        (clear_row z a b x p q az ar, row_clears z a rows apart proper p az ar)

    zone-Pairs :
        (z : ZoneRow) (rows : List AccessRow)
        → All IsProper rows
        → Disjoint rows
        → Pairs (zone_rows l same_name registrar z rows)
    zone-Pairs z [] proper d = tt
    zone-Pairs z (a ∷ rows) (p, proper) (apart, d) =
        elim (Bool-cases (a.zone == z.id && a.registrarid == registrar)) [
          | inl e ↦ rw e (
            All-zone_rows (Clear (z.fqdn, a)) z rows (
                row_clears z a rows apart proper p ((==_iff a.zone z.id).0 (ground arith))
                  ((==_iff a.registrarid registrar).0 (ground arith))),
            zone-Pairs z rows proper d,
          )
          | inr e ↦ rw e (zone-Pairs z rows proper d)
        ]

    Pairs-append :
        (xs ys : List (Text × AccessRow))
        → Pairs xs
        → Pairs ys
        → All (λ x. All (Clear x) ys) xs
        → Pairs (xs ++ ys)
    Pairs-append [] ys h k c = k
    Pairs-append (x ∷ xs) ys (p, h) k (q, c) =
        (All-append (Clear x) xs ys p q, Pairs-append xs ys h k c)

    joined-Pairs :
        (zs : List ZoneRow) (rows : List AccessRow)
        → DistinctNames same_name zs
        → All IsProper rows
        → Disjoint rows
        → Pairs (joined_rows l same_name registrar zs rows)
    joined-Pairs [] rows n proper d = tt
    joined-Pairs (z ∷ zs) rows (n, ns) proper d =
        Pairs-append (zone_rows l same_name registrar z rows)
          (joined_rows l same_name registrar zs rows) (zone-Pairs z rows proper d)
          (joined-Pairs zs rows ns proper d)
          (All-zone_rows _ z rows (
            all_of _ rows λ a _ _.
              All-joined_rows (Clear (z.fqdn, a)) zs rows
                (All_mono zs (λ w h. all_of _ rows λ b. rw h refl) n)))

  nothing_there :
      (rows : List (Text × AccessRow))
      → All (λ y. has l same_name laws y.0 (period y) [] ≡ false) rows
  nothing_there [] = tt
  nothing_there (y ∷ rows) = (refl, nothing_there rows)

  joined-IsProper :
      (registrar : ℕ) (zs : List ZoneRow) (rows : List AccessRow)
      → All IsProper rows
      → All (λ x. IsProper x.1) (joined_rows l same_name registrar zs rows)
  joined-IsProper registrar zs rows proper =
      All-joined_rows registrar (λ x. IsProper x.1) zs rows (each zs)
    where
      each : (zs : List ZoneRow) → All (λ z. All IsProper rows) zs
      each [] = tt
      each (z ∷ zs) = (proper, each zs)

  -- Where equality of names by strcasecmp is symmetric and transitive, one registrar is found,
  -- no two zones have the same name, no period ends before it starts and no day of a registrar
  -- in a zone is covered by two periods, the history of the registrar is returned, and
  -- has_access says true for a zone and a day exactly if a row of the registrar in a zone with
  -- that name covers the day.
  pub history-is_covered :
      (handle : Text) (db : Db) (r : RegistrarRow)
      → filter (is_registrar l handle) db.registrar ≡ r ∷ []
      → DistinctNames same_name db.zone
      → All IsProper db.registrarinvoice
      → Disjoint db.registrarinvoice
      → (h : RegistrarZoneAccessHistory) × (get_zone_access_history l same_name handle db ≡ ok h)
        × ((zone : Text) (d : ℕ)
            → has_access l same_name h zone d ≡ is_covered l same_name laws r.id zone d db)
  unfolding get_zone_access_history history_for
  history-is_covered handle db r found names proper disjoint =
      let rows = joined_rows l same_name r.id db.zone db.registrarinvoice in
      let (m, e) =
        loop_returns rows [] (joined-IsProper r.id db.zone db.registrarinvoice proper)
          (nothing_there rows)
          (joined-Pairs r.id db.zone db.registrarinvoice names proper disjoint) in
      let h : RegistrarZoneAccessHistory = record {
        registrar_handle = handle;
        invoices_by_zone = m;
      } in
      let is_h : get_zone_access_history l same_name handle db ≡ ok h =
        rw (found, history_for, e) refl in
      (h, is_h, λ zone d. has_access-is_covered l same_name laws handle zone d db r h found is_h)
