-- ===== src/Registrar/ZoneAccess/Calls.antt =====
-- Sequences of operations keep the periods of access disjoint.
use fred_libfred.Common.{
  ℕ, ◌≡◌, refl, sym, ap, subst, ◌∙◌, List, [], ◌∷◌, map, Text, ◌==◌, any, All, any-false→All,
  filter, true, false, not, ◌&&◌, Bool-cases, inl, inr, Option, Result, ok, err, arith, ==_iff,
}
use fred_libfred.Registrar.Periods.{Apart-sym, filter-Disjoint}
use fred_libfred.Registrar.ZoneAccess.{AccessRow, Db, Date, Letters, AccessError}
use fred_libfred.Registrar.ZoneAccess.Change.{
  date_or_null, add_registrar_zone_access, set_dates, overlaps_other, set_access, update_verdict,
  is_unset, update_registrar_zone_access, delete_registrar_zone_access,
}
use fred_libfred.Registrar.ZoneAccess.Exclusive.{
  registrar_in_zone, covers, Apart, Disjoint, thrown, add-Disjoint,
}

-- The row that is changed is apart from the others, which the query compares it with.
other-Apart : (a y : AccessRow) → overlaps_other a y ≡ false → (y.id == a.id) ≡ false → Apart a y
unfolding overlaps_other
other-Apart a y free other d same on =
    let same_reg : a.registrarid ≡ y.registrarid = ap (λ k. k.0) same in
    let same_zone : a.zone ≡ y.zone = ap (λ k. k.1) same in ground arith

cons_not_nil : {x : AccessRow} {xs : List AccessRow} → x ∷ xs ≡ [] → ⊥
cons_not_nil h = cc

cons_one : {x y : AccessRow} {xs : List AccessRow} → x ∷ xs ≡ y ∷ [] → (x ≡ y) × (xs ≡ [])
cons_one h = (cc, cc)

map_nil : (f : AccessRow → AccessRow) (xs : List AccessRow) → map f xs ≡ [] → xs ≡ []
map_nil f [] h = refl
map_nil f (x ∷ xs) h = absurd (cons_not_nil h)

module _ (id : ℕ) (from to : Option ℕ) where
  none_meant :
      (rows : List AccessRow)
      → filter (λ a. a.id == id) rows ≡ []
      → All (λ a. (a.id == id) ≡ false) rows
  none_meant [] h = tt
  none_meant (x ∷ rows) h = elim (Bool-cases (x.id == id)) [
    | inl e ↦ absurd (cons_not_nil (rw e at h))
    | inr e ↦ (e, none_meant rows (rw e at h))
  ]

  vacuous :
      (a : AccessRow) (rows : List AccessRow)
      → All (λ y. (y.id == id) ≡ false) rows
      → All (λ y. (y.id == id) ≡ true → set_dates from to y ≡ a) rows
  vacuous a [] h = tt
  vacuous a (y ∷ rows) (e, h) = (λ k. cc, vacuous a rows h)

  all-Apart :
      (a : AccessRow) (rows : List AccessRow)
      → a.id ≡ id
      → All (λ y. (y.id == id) ≡ false) rows
      → All (λ y. overlaps_other a y ≡ false) rows
      → All (Apart a) rows
  all-Apart a [] is_id h free = tt
  all-Apart a (y ∷ rows) is_id (e, h) (f, free) =
      (other-Apart a y f (ground arith), all-Apart a rows is_id h free)

  none_changed :
      (rows : List AccessRow)
      → filter (λ a. a.id == id) rows ≡ []
      → map (set_access id from to) rows ≡ rows
  none_changed [] h = refl
  none_changed (x ∷ rows) h = elim (Bool-cases (x.id == id)) [
    | inl e ↦ absurd (cons_not_nil (rw e at h))
    | inr e ↦ rw e (ap (◌∷◌ x) (none_changed rows (rw e at h)))
  ]

  -- The changed row `a` is apart from the rows that are not.
  changed-Apart :
      (a x : AccessRow) (rows : List AccessRow)
      → All (Apart x) rows
      → (All (λ y. (y.id == id) ≡ true → set_dates from to y ≡ a) rows)
      → Apart x a
      → All (Apart x) (map (set_access id from to) rows)
  changed-Apart a x [] apart same new = tt
  changed-Apart a x (y ∷ rows) (p, apart) (s, same) new = (
    elim (Bool-cases (y.id == id)) [
      | inl e ↦ rw e (subst (Apart x) (sym (s e)) new)
      | inr e ↦ rw e p
    ],
    changed-Apart a x rows apart same new,
  )

  only_one :
      (a : AccessRow) (rows : List AccessRow)
      → map (set_dates from to) (filter (λ y. y.id == id) rows) ≡ a ∷ []
      → All (λ y. (y.id == id) ≡ true → set_dates from to y ≡ a) rows
  only_one a [] h = tt
  only_one a (y ∷ rows) h = elim (Bool-cases (y.id == id)) [
    | inl e ↦
        let (first, rest) = cons_one (rw e at h) in
        (λ k. first, vacuous a rows (none_meant rows (map_nil (set_dates from to) _ rest)))
    | inr e ↦ (λ k. cc, only_one a rows (rw e at h))
  ]

  changed-Disjoint :
      (a : AccessRow) (rows : List AccessRow)
      → map (set_dates from to) (filter (λ y. y.id == id) rows) ≡ a ∷ []
      → a.id ≡ id
      → All (λ y. overlaps_other a y ≡ false) rows
      → Disjoint rows
      → Disjoint (map (set_access id from to) rows)
  changed-Disjoint a [] one is_id free d = tt
  changed-Disjoint a (y ∷ rows) one is_id (f, free) (p, d) = elim (Bool-cases (y.id == id)) [
    | inl e ↦
        let (first, rest) = cons_one (rw e at one) in
        let gone = map_nil (set_dates from to) _ rest in
        rw (e, none_changed rows gone)
          (
            subst (λ x. All (Apart x) rows) (sym first)
                (all-Apart a rows is_id (none_meant rows gone) free),
            d,
          )
    | inr e ↦ rw e (
      changed-Apart a y rows p (only_one a rows (rw e at one))
          (Apart-sym registrar_in_zone covers a y (other-Apart a y f (ground arith))),
      changed-Disjoint a rows (rw e at one) is_id free d,
    )
  ]

  one_id :
      (a : AccessRow) (rows : List AccessRow)
      → map (set_dates from to) (filter (λ y. y.id == id) rows) ≡ a ∷ []
      → a.id ≡ id
  unfolding set_dates
  one_id a [] h = cc
  one_id a (y ∷ rows) h = elim (Bool-cases (y.id == id)) [
    | inl e ↦ ap (λ x. x.id) (sym (cons_one (rw e at h)).0) ∙ (==_iff y.id id).0 e
    | inr e ↦ one_id a rows (rw e at h)
  ]

  verdict-Disjoint :
      (rows changed : List AccessRow) (i : ℕ)
      → map (set_dates from to) (filter (λ y. y.id == id) rows) ≡ changed
      → Disjoint rows
      → update_verdict rows changed ≡ ok i
      → Disjoint (map (set_access id from to) rows)
  unfolding update_verdict
  verdict-Disjoint rows [] i one d h = cc
  verdict-Disjoint rows (a ∷ b ∷ as') i one d h = cc
  verdict-Disjoint rows (a ∷ []) i one d h = elim (Bool-cases (any (overlaps_other a) rows)) [
    | inl e ↦ cc (rw e at h)
    | inr e ↦
        changed-Disjoint a rows one (one_id a rows one) (any-false→All (overlaps_other a) rows e) d
  ]

update-Disjoint :
    (id : ℕ) (from to : Option Date) (db db' : Db) (i : ℕ)
    → Disjoint db.registrarinvoice
    → update_registrar_zone_access id from to db ≡ (ok i, db')
    → Disjoint db'.registrarinvoice
unfolding update_registrar_zone_access
update-Disjoint id from to db db' i d h =
    let from_date = date_or_null from in
    let to_date = date_or_null to in
    elim (Bool-cases (is_unset from_date && is_unset to_date)) [
      | inl e ↦ absurd (thrown (rw e at h))
      | inr e ↦
          let k = rw e at h in
          subst (λ t. Disjoint t.registrarinvoice) (ap (λ m. m.1) k)
            (verdict-Disjoint id from_date to_date db.registrarinvoice _ i refl d (ap (λ m. m.0) k))
    ]

delete-Disjoint :
    (id : ℕ) (db db' : Db) (i : ℕ)
    → Disjoint db.registrarinvoice
    → delete_registrar_zone_access id db ≡ (ok i, db')
    → Disjoint db'.registrarinvoice
unfolding delete_registrar_zone_access
delete-Disjoint id db db' i d h =
    subst (λ t. Disjoint t.registrarinvoice) (ap (λ m. m.1) h)
      (filter-Disjoint registrar_in_zone covers (λ a. not (a.id == id)) db.registrarinvoice d)

pub data Call : Type 0 where
  add : Text → Text → Date → Option Date → Call
  update : ℕ → Option Date → Option Date → Call
  delete : ℕ → Call

-- An operation that throws is rolled back.
abbrev pub committed : Db → Result AccessError ℕ × Db → Db
committed db (ok i, db') = db'
committed db (err e, db') = db

module _ (l : Letters) where
  abbrev pub call : Call → Db → Result AccessError ℕ × Db
  call (add handle fqdn from to) db = add_registrar_zone_access l handle fqdn from to db
  call (update id from to) db = update_registrar_zone_access id from to db
  call (delete id) db = delete_registrar_zone_access id db

  abbrev pub run : List Call → Db → Db
  run [] db = db
  run (c ∷ cs) db = run cs (committed db (call c db))

  committed-Disjoint :
      (db : Db) (m : Result AccessError ℕ × Db)
      → Disjoint db.registrarinvoice
      → ((i : ℕ) (db' : Db) → m ≡ (ok i, db') → Disjoint db'.registrarinvoice)
      → Disjoint (committed db m).registrarinvoice
  committed-Disjoint db (ok i, db') d h = h i db' refl
  committed-Disjoint db (err e, db') d h = d

  call-Disjoint :
      (c : Call) (db db' : Db) (i : ℕ)
      → Disjoint db.registrarinvoice
      → call c db ≡ (ok i, db')
      → Disjoint db'.registrarinvoice
  call-Disjoint (add handle fqdn from to) db db' i d h =
      add-Disjoint l handle fqdn from to db db' i d h
  call-Disjoint (update id from to) db db' i d h = update-Disjoint id from to db db' i d h
  call-Disjoint (delete id) db db' i d h = delete-Disjoint id db db' i d h

  -- Where no day of a registrar in a zone is covered by two periods of access, none is after any
  -- sequence of additions, updates and deletions, what an operation that throws has changed
  -- being rolled back.
  pub run_calls-Disjoint :
      (cs : List Call) (db : Db)
      → Disjoint db.registrarinvoice
      → Disjoint (run cs db).registrarinvoice
  run_calls-Disjoint [] db d = d
  run_calls-Disjoint (c ∷ cs) db d =
      run_calls-Disjoint cs (committed db (call c db))
        (committed-Disjoint db (call c db) d (λ i db' h. call-Disjoint c db db' i d h))
