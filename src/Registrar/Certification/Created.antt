-- ===== src/Registrar/Certification/Created.antt =====
-- What a creation of a certification that returned has found and written.
use fred_libfred.Common.{
  ℕ, ◌≡◌, refl, ap, subst, ◌∙◌, List, [], ◌∷◌, Text, filter, false, ℤ, ==_iff, Option, none, some,
  ok, arith,
}
use fred_libfred.Common.Operations.{returned}
use fred_libfred.Registrar.Certification.{
  RegistrarRow, FileRow, CertificationRow, Db, Date, day, special, RegistrarId, FileId, is_file,
  make_registrar_id_sql, check_classification,
}
use fred_libfred.Registrar.Certification.Create.{
  check_validity, truncate_validity, truncated, check_validity_overlapping, overlap_verdict,
  would_overlap, registrars_meant, insert_one_record, new_row, with_row,
  create_registrar_certification,
}

pub check_classification-returned :
    (c : ℤ) (db db' : Db) {u : Unit {0}} → check_classification c db ≡ (ok u, db') → db ≡ db'
unfolding check_classification
check_classification-returned c db db' h = ground arith

pub check_validity-returned :
    (current_date from : ℕ) (valid_from until : Date) (db db' : Db)
    → check_validity current_date valid_from until db ≡ (ok from, db')
    → (valid_from ≡ day from) × (db ≡ db')
unfolding check_validity
check_validity-returned current_date from special until db db' h = cc
check_validity-returned current_date from (day f) special db db' h = (cc, cc)
check_validity-returned current_date from (day f) (day u) db db' h = (ground arith, ground arith)

pub truncate_validity-returned :
    (id : Option ℕ) (from : ℕ) (db db' : Db) {u : Unit {0}}
    → truncate_validity id from db ≡ (ok u, db')
    → truncated id from db ≡ db'
unfolding truncate_validity
truncate_validity-returned id from db db' h = ap (λ r. r.1) h

pub meant_id :
    (i : ℕ) (rows : List RegistrarRow) (r : RegistrarRow) (rs : List RegistrarRow)
    → registrars_meant (some i) rows ≡ r ∷ rs
    → r.id ≡ i
meant_id i [] r rs h = cc
meant_id i (x ∷ rows) r rs h = ground (arith, meant_id i rows r rs, ==_iff x.id i)

verdict_ok :
    (i from : ℕ) (db : Db) (found : List RegistrarRow)
    → ((r : RegistrarRow) (rs : List RegistrarRow) → found ≡ r ∷ rs → r.id ≡ i)
    → overlap_verdict from db found ≡ ok tt
    → would_overlap i from db.registrar_certification ≡ false
unfolding overlap_verdict
verdict_ok i from db [] same h = cc
verdict_ok i from db (r ∷ []) same h = ground (arith, same r [] refl)
verdict_ok i from db (r ∷ s ∷ rs) same h = cc

pub no_overlap :
    (id : Option ℕ) (from : ℕ) (db db' : Db) {u : Unit {0}}
    → check_validity_overlapping id from db ≡ (ok u, db')
    → (i : ℕ) × (id ≡ some i)
      × (would_overlap i from db.registrar_certification ≡ false)
      × (db ≡ db')
unfolding check_validity_overlapping overlap_verdict
no_overlap none from db db' h = cc
no_overlap (some i) from db db' h =
    (i, refl, verdict_ok i from db _ (meant_id i db.registrar) (ap (λ r. r.0) h), ap (λ r. r.1) h)

pub insert-returned :
    (i from : ℕ) (until : Date) (c : ℤ) (files : List FileRow) (db db' : Db)
    (row : CertificationRow)
    → insert_one_record (some i) from until c files db ≡ (ok row, db')
    → (f : FileRow) × (row ≡ new_row i from until c f db) × (db' ≡ with_row row db)
unfolding insert_one_record
insert-returned i from until c [] db db' row h = cc
insert-returned i from until c (f ∷ fs) db db' row h = (f, cc, cc)

module _ (upper : Text → Text) (current_date : ℕ) (registrar_id : RegistrarId)
    (valid_from valid_until : Date) (classification : ℤ) (file_id : FileId) (db : Db) where
  -- What has been found and written.
  pub record Created (row : CertificationRow) (db' : Db) : Type 0 where
    pub registrar : ℕ
    pub from : ℕ
    pub file : FileRow
    pub is_registrar : make_registrar_id_sql upper registrar_id db ≡ some registrar
    pub is_from : valid_from ≡ day from
    pub apart :
        would_overlap registrar from (truncated (some registrar) from db).registrar_certification
        ≡ false
    pub is_row :
        row
        ≡ new_row registrar from valid_until classification file
            (truncated (some registrar) from db)
    pub stored : db' ≡ with_row row (truncated (some registrar) from db)

  assemble :
      (id : Option ℕ) (i from : ℕ) (db1 : Db) {row : CertificationRow} {db' : Db}
      → make_registrar_id_sql upper registrar_id db ≡ id
      → id ≡ some i
      → valid_from ≡ day from
      → truncated id from db ≡ db1
      → would_overlap i from db1.registrar_certification ≡ false
      → insert_one_record id from valid_until classification (filter (is_file file_id) db.files) db1
        ≡ (ok row, db')
      → Created row db'
  assemble none i from db1 made meant start cut apart h = cc
  assemble (some j) i from db1 made meant start cut apart h =
      let (f, is_row, stored) = insert-returned j from valid_until classification _ db1 _ _ h in
      record {
        registrar = j;
        from = from;
        file = f;
        is_registrar = made;
        is_from = start;
        apart = cc;
        is_row = cc;
        stored = cc;
      }

  pub create-Created :
      {row : CertificationRow} {db' : Db}
      → create_registrar_certification upper current_date registrar_id valid_from valid_until
          classification file_id db
        ≡ (ok row, db')
      → Created row db'
  unfolding create_registrar_certification
  create-Created h =
      let (u, db1, scored, h1) = returned (check_classification classification db) _ h in
      let (from, db2, passed, h2) =
        returned (check_validity current_date valid_from valid_until db1) _ h1 in
      let valid = check_validity-returned current_date from valid_from valid_until db1 db2 passed in
      let id = make_registrar_id_sql upper registrar_id db in
      let (v, db3, cut, h3) = returned (truncate_validity id from db2) _ h2 in
      let (w, db4, free, h4) = returned (check_validity_overlapping id from db3) _ h3 in
      let (i, found, apart, same) = no_overlap id from db3 db4 free in
      assemble id i from db4 refl found valid.0
        (ap (truncated id from)
            (check_classification-returned classification db db1 scored ∙ valid.1)
          ∙ (truncate_validity-returned id from db2 db3 cut ∙ same))
        (subst (λ x. would_overlap i from x.registrar_certification ≡ false) same apart) h4
