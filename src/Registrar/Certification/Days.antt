-- ===== src/Registrar/Certification/Days.antt =====
-- Which days a certification covers, and which certification covers a day.
use fred_libfred.Common.{
  ℕ, ◌≡◌, refl, ap, ◌∙◌, List, [], ◌∷◌, ◌++◌, map, Text, leb, ltb, ◌==◌, if◌then◌else◌, Bool, true,
  false, ◌&&◌, Option-cases, Option, none, some, ℤ, ok, arith,
}
use fred_libfred.Registrar.Certification.{
  CertificationRow, Db, Date, RegistrarId, FileId, day, make_registrar_id_sql,
}
use fred_libfred.Registrar.Certification.Create.{
  truncate, truncated, would_overlap, end_or_null, create_registrar_certification,
}
use fred_libfred.Registrar.Certification.Created.{create-Created}

-- The end of a row is included; NULL is no end.
abbrev pub ends_before : Option ℕ → ℕ → Bool
ends_before none d = false
ends_before (some until) d = ltb until d

abbrev pub covers : CertificationRow → ℕ → Bool
covers c d = leb c.valid_from d && (if ends_before c.valid_until d then false else true)

-- The id of the first certification of the registrar that covers the day.
abbrev pub certification_on : ℕ → ℕ → List CertificationRow → Option ℕ
certification_on r d [] = none
certification_on r d (c ∷ cs) =
    if c.registrar_id == r && covers c d then some c.id else certification_on r d cs

-- After the truncation, and where nothing would overlap, the days from `from` on are free, and the
-- others are as they were.
on_truncated :
    (i from r d : ℕ) (rows : List CertificationRow)
    → would_overlap i from (map (truncate (some i) from) rows) ≡ false
    → certification_on r d (map (truncate (some i) from) rows)
      ≡ (if i == r && leb from d then none else certification_on r d rows)
unfolding would_overlap truncate
on_truncated i from r d [] h = ground arith
on_truncated i from r d (c ∷ cs) h = ground (arith, on_truncated i from r d cs)

on_append :
    (r d : ℕ) (rows : List CertificationRow) (c : CertificationRow)
    → certification_on r d (rows ++ c ∷ []) ≡ elim (certification_on r d rows) [
      | some k ↦ some k
      | none ↦ if c.registrar_id == r && covers c d then some c.id else none
    ]
on_append r d [] c = refl
on_append r d (x ∷ rows) c = ground (arith, on_append r d rows c)

on_created :
    (i from r d : ℕ) (rows : List CertificationRow) (c : CertificationRow)
    → c.registrar_id ≡ i
    → c.valid_from ≡ from
    → would_overlap i from (map (truncate (some i) from) rows) ≡ false
    → certification_on r d (map (truncate (some i) from) rows ++ c ∷ []) ≡ (
        if c.registrar_id == r && leb c.valid_from d
        then (if covers c d then some c.id else none)
        else certification_on r d rows)
on_created i from r d rows c same start free = ground (
  arith,
  on_append r d (map (truncate (some i) from) rows) c,
  on_truncated i from r d rows free,
  Option-cases (certification_on r d rows),
)

module _ (upper : Text → Text) (current_date : ℕ) (registrar_id : RegistrarId)
    (valid_from valid_until : Date) (classification : ℤ) (file_id : FileId) (db : Db) where
  -- After a creation that succeeds, on the days of its registrar from its start on, the new
  -- certification alone is found, up to its end; on the days before, and for any other
  -- registrar, the certification found is the one found before. The new row has the registrar
  -- meant, the dates and the score that were given.
  pub create-certification_on :
      {row : CertificationRow} {db' : Db}
      → create_registrar_certification upper current_date registrar_id valid_from valid_until
          classification file_id db
        ≡ (ok row, db')
      → (make_registrar_id_sql upper registrar_id db ≡ some row.registrar_id)
        × (valid_from ≡ day row.valid_from)
        × (row.valid_until ≡ end_or_null valid_until)
        × (row.classification ≡ classification)
        × ((r d : ℕ)
            → certification_on r d db'.registrar_certification ≡ (
                if row.registrar_id == r && leb row.valid_from d
                then (if covers row d then some row.id else none)
                else certification_on r d db.registrar_certification))
  unfolding truncated
  create-certification_on {row} {db'} h =
      let c =
        create-Created upper current_date registrar_id valid_from valid_until classification file_id
          db h in
      (
        c.is_registrar ∙ cc,
        c.is_from ∙ cc,
        cc,
        cc,
        λ r d.
            ap (λ t. certification_on r d t.registrar_certification) c.stored
            ∙ on_created c.registrar c.from r d db.registrar_certification row (cc) (cc) c.apart,
      )
