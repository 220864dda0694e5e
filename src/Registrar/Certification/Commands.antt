-- ===== src/Registrar/Certification/Commands.antt =====
-- Sequences of operations keep the certifications of each registrar disjoint.
use fred_libfred.Common.{
  ℕ, ◌≡◌, refl, subst, List, [], ◌∷◌, Text, filter, false, not, Bool-cases, inl, inr, Option, none,
  some, ℤ, ok, arith,
}
use fred_libfred.Common.Operations.{continue, continue-Keeps}
use fred_libfred.Registrar.Certification.{
  CertificationRow, Db, Date, special, day, RegistrarId, FileId, FileRow, CertificationId,
  make_registrar_id_sql, check_classification, is_file, is_meant,
}
use fred_libfred.Registrar.Certification.Create.{
  truncate, truncated, truncate_validity, would_overlap, check_validity, check_validity_overlapping,
  insert_one_record, new_row, create_registrar_certification,
}
use fred_libfred.Registrar.Certification.Update.{
  Changes, apply_changes, store_changes, changed_until, changed_classification, changed_file,
  update_row, check_file, file_found, one_row, update_registrar_certification, set_nothing,
  found_uuid,
}
use fred_libfred.Registrar.Certification.Delete.{delete_registrar_certification}
use fred_libfred.Registrar.Certification.Created.{no_overlap}
use fred_libfred.Registrar.Periods.{map-Disjoint, filter-Disjoint, append-Disjoint}
use fred_libfred.Registrar.Certification.Days.{covers}
use fred_libfred.Registrar.Certification.Disjoint.{
  Disjoint, Within, registrar_of, free-Apart, truncate-Within,
}

abbrev pub AreDisjoint : Db → Type 0
AreDisjoint db = Disjoint db.registrar_certification

insert-Disjoint :
    (i from : ℕ) (until : Date) (c : ℤ) (files : List FileRow) (db : Db)
    → would_overlap i from db.registrar_certification ≡ false
    → AreDisjoint db
    → AreDisjoint (insert_one_record (some i) from until c files db).1
unfolding insert_one_record
insert-Disjoint i from until c [] db free h = h
insert-Disjoint i from until c (f ∷ fs) db free h =
    append-Disjoint registrar_of covers (new_row i from until c f db) _
      (free-Apart from (new_row i from until c f db) db.registrar_certification refl free) h

classified : (c : ℤ) (db : Db) → (check_classification c db).1 ≡ db
unfolding check_classification
classified c db = refl

checked :
    (current_date : ℕ) (from until : Date) (db : Db)
    → (check_validity current_date from until db).1 ≡ db
unfolding check_validity
checked current_date special until db = refl
checked current_date (day f) special db = refl
checked current_date (day f) (day u) db = ground arith

inserted :
    (id : Option ℕ) (from : ℕ) (until : Date) (c : ℤ) (files : List FileRow) (db db' : Db)
    {u : Unit {0}}
    → check_validity_overlapping id from db ≡ (ok u, db')
    → AreDisjoint db'
    → AreDisjoint (insert_one_record id from until c files db').1
inserted none from until c files db db' e h =
    let (i, found, free, same) = no_overlap none from db db' e in cc
inserted (some j) from until c files db db' e h =
    let (i, found, free, same) = no_overlap (some j) from db db' e in
    insert-Disjoint j from until c files db'
      (subst (λ x. would_overlap j from x.registrar_certification ≡ false) same (cc)) h

module _ (upper : Text → Text) (current_date : ℕ) (registrar_id : RegistrarId)
    (valid_from valid_until : Date) (classification : ℤ) (file_id : FileId) where
  create-Disjoint :
      (db : Db)
      → AreDisjoint db
      → AreDisjoint
          (create_registrar_certification upper current_date registrar_id valid_from valid_until
            classification file_id db).1
  unfolding create_registrar_certification truncate_validity truncated check_validity_overlapping
  create-Disjoint db h =
      continue-Keeps AreDisjoint (check_classification classification db) _
        (rw (classified classification db) h)
        λ u db1 scored h1.
          continue-Keeps AreDisjoint (check_validity current_date valid_from valid_until db1) _
            (rw (checked current_date valid_from valid_until db1) h1)
            λ from db2 valid h2.
              let id = make_registrar_id_sql upper registrar_id db in
              continue-Keeps AreDisjoint (truncate_validity id from db2) _
                (map-Disjoint registrar_of covers (truncate id from) (truncate-Within id from) _ h2)
                λ v db3 cut h3.
                  continue-Keeps AreDisjoint (check_validity_overlapping id from db3) _ h3
                    λ w db4 free h4. inserted id from valid_until classification _ db3 db4 free h4

unchanged_until :
    (s : Changes) (c : CertificationRow) → s.valid_until ≡ none → Within (apply_changes s c) c
unfolding apply_changes
unchanged_until s c e = (refl, λ d h. ground arith)

update_row-Within :
    (id : CertificationId) (s : Changes) (c : CertificationRow)
    → s.valid_until ≡ none
    → Within (update_row id s c) c
update_row-Within id s c e = elim (Bool-cases (is_meant id c)) [
  | inl meant ↦ rw meant (unchanged_until s c e)
  | inr other ↦ rw other (refl, λ d h. h)
]

one_row_tables : (cs : List CertificationRow) (db : Db) → (one_row cs db).1 ≡ db
unfolding one_row
one_row_tables [] db = refl
one_row_tables (c ∷ []) db = refl
one_row_tables (c ∷ d ∷ cs) db = refl

store-Disjoint :
    (id : CertificationId) (s : Changes) (db : Db)
    → s.valid_until ≡ none
    → AreDisjoint db
    → AreDisjoint (store_changes id s db).1
unfolding store_changes
store-Disjoint id s db e h = elim (Bool-cases (set_nothing s)) [
  | inl nothing ↦ rw nothing h
  | inr something ↦ rw something (
      rw (one_row_tables _ _) (
        map-Disjoint registrar_of covers (update_row id s) (λ c. update_row-Within id s c e)
          db.registrar_certification h))
]

classification_tables : (c : Option ℤ) (db : Db) → (changed_classification c db).1 ≡ db
unfolding changed_classification check_classification
classification_tables none db = refl
classification_tables (some c) db = ground arith

file_found_tables :
    (f : FileId) (files : List FileRow) (db : Db)
    → (continue (file_found files db) (λ u. found_uuid f)).1 ≡ db
unfolding file_found
file_found_tables f [] db = refl
file_found_tables f (x ∷ []) db = refl
file_found_tables f (x ∷ y ∷ files) db = refl

file_tables : (f : Option FileId) (db : Db) → (changed_file f db).1 ≡ db
unfolding changed_file check_file
file_tables none db = refl
file_tables (some f) db = file_found_tables f (filter (is_file f) db.files) db

module _ (local_date : ℕ) (id : CertificationId) (classification : Option ℤ)
    (file : Option FileId) where
  update-Disjoint :
      (db : Db)
      → AreDisjoint db
      → AreDisjoint (update_registrar_certification local_date id none classification file db).1
  unfolding update_registrar_certification changed_until
  update-Disjoint db h =
      continue-Keeps AreDisjoint (changed_classification classification db) _
        (rw (classification_tables classification db) h)
        λ c db1 e1 h1.
          continue-Keeps AreDisjoint (changed_file file db1) _ (rw (file_tables file db1) h1)
            λ f db2 e2 h2.
              store-Disjoint id
                (record { valid_until = none; classification = c; eval_file_uuid = f }) db2 refl h2

delete-Disjoint :
    (id : CertificationId) (db : Db)
    → AreDisjoint db
    → AreDisjoint (delete_registrar_certification id db).1
unfolding delete_registrar_certification
delete-Disjoint id db h =
    rw (one_row_tables _ _)
      (filter-Disjoint registrar_of covers (λ c. not (is_meant id c)) db.registrar_certification h)

-- A call of an operation; an update sets no end.
pub data Command : Type 0 where
  certify : ℕ → RegistrarId → Date → Date → ℤ → FileId → Command
  reassess : ℕ → CertificationId → Option ℤ → Option FileId → Command
  revoke : CertificationId → Command

module _ (upper : Text → Text) where
  -- The tables after a call, whether it returned or threw.
  abbrev pub step : Command → Db → Db
  step (certify current_date registrar from until classification file) db =
      (create_registrar_certification upper current_date registrar from until classification file
        db).1
  step (reassess local_date id classification file) db =
      (update_registrar_certification local_date id none classification file db).1
  step (revoke id) db = (delete_registrar_certification id db).1

  abbrev pub run : List Command → Db → Db
  run [] db = db
  run (c ∷ cs) db = run cs (step c db)

  step-Disjoint : (c : Command) (db : Db) → AreDisjoint db → AreDisjoint (step c db)
  step-Disjoint (certify t r from until c f) db h = create-Disjoint upper t r from until c f db h
  step-Disjoint (reassess t id c f) db h = update-Disjoint t id c f db h
  step-Disjoint (revoke id) db h = delete-Disjoint id db h

  -- If no day of a registrar is covered by two certifications, that stays so after any sequence
  -- of creations, deletions and updates that set no end, whether each of them returns or throws.
  pub run-Disjoint : (cs : List Command) (db : Db) → AreDisjoint db → AreDisjoint (run cs db)
  run-Disjoint [] db h = h
  run-Disjoint (c ∷ cs) db h = run-Disjoint cs (step c db) (step-Disjoint c db h)
