-- ===== src/Registrar/Certification/Create.antt =====
-- `create_registrar_certification`
-- (src/libfred/registrar/certification/create_registrar_certification.cc).
use fred_libfred.Common.{
  ℕ, ◌+◌, ◌-◌, List, [], ◌∷◌, ◌++◌, map, Text, ltb, leb, ◌==◌, any, filter, if◌then◌else◌, Bool,
  false, true, ◌&&◌, ℤ, Option, none, some, Result, ok, err,
}
use fred_libfred.Common.Operations.{◌>>=◌, ◌>>◌, throw, throw_if, return}
use fred_libfred.Registrar.Certification.{
  RegistrarRow, FileRow, CertificationRow, Db, Date, day, special, RegistrarId, FileId,
  CertificationError, Operation, is_file, make_registrar_id_sql, check_classification,
  invalid_date_from, wrong_interval_order, certification_in_past, overlapping_range,
  registrar_not_found, file_does_not_exist, too_many_registrars, refused_query,
}

-- `check_validity`, with the day that a date which passes stands for; `current_date` is
-- `CURRENT_DATE`.
unfoldable pub check_validity : ℕ → Date → Date → Operation ℕ
check_validity current_date special valid_until = throw invalid_date_from
check_validity current_date (day from) special = return from
check_validity current_date (day from) (day until) = do
  throw_if (leb until from) wrong_interval_order
  throw_if (ltb until current_date) certification_in_past
  return from

-- `valid_until IS NULL OR $2::DATE <= valid_until`.
abbrev pub lasts_until : ℕ → Option ℕ → Bool
lasts_until from none = true
lasts_until from (some until) = leb from until

-- `registrar_id = …`, which no row meets if the id is NULL.
abbrev pub is_of : Option ℕ → CertificationRow → Bool
is_of none c = false
is_of (some i) c = c.registrar_id == i

-- The `WHERE` of the truncation.
unfoldable pub is_truncated : Option ℕ → ℕ → CertificationRow → Bool
is_truncated registrar_id from c =
    is_of registrar_id c && (ltb c.valid_from from && lasts_until from c.valid_until)

unfoldable pub truncate : Option ℕ → ℕ → CertificationRow → CertificationRow
unfolding is_truncated
truncate registrar_id from c =
    if is_truncated registrar_id from c then record c { valid_until = some (from - 1) } else c

-- More than one row has been truncated.
abbrev pub is_many : {A : Type 0} → List A → Bool
is_many [] = false
is_many (x ∷ []) = false
is_many (x ∷ y ∷ xs) = true

unfoldable pub truncated : Option ℕ → ℕ → Db → Db
unfolding truncate
truncated registrar_id from db = record db {
  registrar_certification = map (truncate registrar_id from) db.registrar_certification;
}

-- `truncate_validity`.
unfoldable pub truncate_validity : Option ℕ → ℕ → Operation (Unit {0})
unfolding is_truncated truncated
truncate_validity registrar_id from db =
    let rows = filter (is_truncated registrar_id from) db.registrar_certification in
    (if is_many rows then err overlapping_range else ok tt, truncated registrar_id from db)

-- The `EXISTS` of `check_validity_overlapping`.
unfoldable pub would_overlap : ℕ → ℕ → List CertificationRow → Bool
would_overlap registrar_id from =
    any (λ c. c.registrar_id == registrar_id && lasts_until from c.valid_until)

-- `WHERE id = …`.
abbrev pub registrars_meant : Option ℕ → List RegistrarRow → List RegistrarRow
registrars_meant none rows = []
registrars_meant (some i) rows = filter (λ r. r.id == i) rows

unfoldable pub overlap_verdict : ℕ → Db → List RegistrarRow → Result CertificationError (Unit {0})
unfolding would_overlap
overlap_verdict from db [] = err registrar_not_found
overlap_verdict from db (r ∷ []) =
    if would_overlap r.id from db.registrar_certification then err overlapping_range else ok tt
overlap_verdict from db (r ∷ s ∷ rows) = err too_many_registrars

-- `check_validity_overlapping`.
unfoldable pub check_validity_overlapping : Option ℕ → ℕ → Operation (Unit {0})
unfolding overlap_verdict
check_validity_overlapping registrar_id from db =
    (overlap_verdict from db (registrars_meant registrar_id db.registrar), db)

-- `valid_until.is_special() ? QPNull : valid_until`.
abbrev pub end_or_null : Date → Option ℕ
end_or_null special = none
end_or_null (day until) = some until

abbrev pub new_row : ℕ → ℕ → Date → ℤ → FileRow → Db → CertificationRow
new_row registrar_id from until classification f db = record {
  id = db.next_id;
  uuid = db.next_uuid db.next_id;
  registrar_id = registrar_id;
  valid_from = from;
  valid_until = end_or_null until;
  classification = classification;
  eval_file_uuid = f.uuid;
}

abbrev pub with_row : CertificationRow → Db → Db
with_row row db = record db {
  registrar_certification = db.registrar_certification ++ row ∷ [];
  next_id = db.next_id + 1;
}

-- `insert_one_record`, for the files found, whose keys are unique.
unfoldable pub insert_one_record :
    Option ℕ → ℕ → Date → ℤ → List FileRow → Operation CertificationRow
insert_one_record registrar_id from until classification [] db = (err file_does_not_exist, db)
insert_one_record none from until classification (f ∷ fs) db = (err refused_query, db)
insert_one_record (some i) from until classification (f ∷ fs) db =
    let row = new_row i from until classification f db in (ok row, with_row row db)

module _ (upper : Text → Text) where
  unfoldable pub create_registrar_certification :
      ℕ → RegistrarId → Date → Date → ℤ → FileId → Operation CertificationRow
  unfolding make_registrar_id_sql check_classification check_validity truncate_validity
      check_validity_overlapping insert_one_record
  create_registrar_certification current_date registrar_id valid_from valid_until classification
        eval_file_id db =
      let id = make_registrar_id_sql upper registrar_id db in
      let files = filter (is_file eval_file_id) db.files in
      let run : Operation CertificationRow = do
        check_classification classification
        from ← check_validity current_date valid_from valid_until
        truncate_validity id from
        check_validity_overlapping id from
        insert_one_record id from valid_until classification files
      in run db
