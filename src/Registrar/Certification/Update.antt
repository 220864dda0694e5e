-- ===== src/Registrar/Certification/Update.antt =====
-- `update_registrar_certification`
-- (src/libfred/registrar/certification/update_registrar_certification.cc).
use fred_libfred.Common.{
  ℕ, List, [], ◌∷◌, map, ltb, filter, if◌then◌else◌, Bool, false, true, ◌&&◌, ℤ, Option, none, some,
  ok, err,
}
use fred_libfred.Common.Operations.{◌>>=◌, ◌>>◌, return, throw, throw_if}
use fred_libfred.Registrar.Certification.{
  FileRow, CertificationRow, Date, day, special, FileId, CertificationId, Operation, is_file,
  is_meant, check_classification, invalid_date_to, certification_in_past, wrong_interval_order,
  registrar_certification_does_not_exist, file_does_not_exist, too_many_files,
  too_many_certifications, refused_query,
}

-- The rows that the query of `check_valid_until` answers with; `local_date` is the day in the zone
-- of the regular procedures.
unfoldable pub check_until_of : ℕ → ℕ → List CertificationRow → Operation (Unit {0})
check_until_of local_date until [] = throw registrar_certification_does_not_exist
check_until_of local_date until (c ∷ []) = do
  throw_if (ltb until local_date) certification_in_past
  throw_if (ltb until c.valid_from) wrong_interval_order
check_until_of local_date until (c ∷ d ∷ cs) = throw too_many_certifications

-- `check_valid_until`.
unfoldable pub check_valid_until : ℕ → CertificationId → ℕ → Operation (Unit {0})
unfolding check_until_of
check_valid_until local_date certification_id until db =
    check_until_of local_date until (filter (is_meant certification_id) db.registrar_certification)
      db

unfoldable pub file_found : List FileRow → Operation (Unit {0})
file_found [] = throw file_does_not_exist
file_found (f ∷ []) = return tt
file_found (f ∷ g ∷ fs) = throw too_many_files

-- `check_file`.
unfoldable pub check_file : FileId → Operation (Unit {0})
unfolding file_found
check_file file_id db = file_found (filter (is_file file_id) db.files) db

-- The uuid that `MakeSetFileIdSql` sets, by a file that has been found.
abbrev pub uuid_of : List FileRow → Option ℕ
uuid_of [] = none
uuid_of (f ∷ fs) = some f.uuid

abbrev pub found_uuid : FileId → Operation (Option ℕ)
found_uuid file_id db = (ok (uuid_of (filter (is_file file_id) db.files)), db)

-- What the text of the `SET` part says: a value for each column that is set.
pub record Changes : Type 0 where
  pub valid_until : Option ℕ
  pub classification : Option ℤ
  pub eval_file_uuid : Option ℕ

abbrev pub is_none : {A : Type 0} → Option A → Bool
is_none none = true
is_none (some a) = false

abbrev pub set_nothing : Changes → Bool
set_nothing s = is_none s.valid_until && (is_none s.classification && is_none s.eval_file_uuid)

unfoldable pub changed_until : ℕ → CertificationId → Option Date → Operation (Option ℕ)
unfolding check_valid_until
changed_until local_date certification_id none = return none
changed_until local_date certification_id (some special) = throw invalid_date_to
changed_until local_date certification_id (some (day until)) = do
  check_valid_until local_date certification_id until
  return (some until)

unfoldable pub changed_classification : Option ℤ → Operation (Option ℤ)
unfolding check_classification
changed_classification none = return none
changed_classification (some c) = do check_classification c; return (some c)

unfoldable pub changed_file : Option FileId → Operation (Option ℕ)
unfolding check_file
changed_file none = return none
changed_file (some file_id) = do check_file file_id; found_uuid file_id

abbrev pub or_else : {A : Type 0} → Option A → A → A
or_else none old = old
or_else (some new) old = new

abbrev pub or_old_until : Option ℕ → Option ℕ → Option ℕ
or_old_until none old = old
or_old_until (some until) old = some until

unfoldable pub apply_changes : Changes → CertificationRow → CertificationRow
apply_changes s c = record c {
  valid_until = or_old_until s.valid_until c.valid_until;
  classification = or_else s.classification c.classification;
  eval_file_uuid = or_else s.eval_file_uuid c.eval_file_uuid;
}

abbrev pub update_row : CertificationId → Changes → CertificationRow → CertificationRow
update_row certification_id s c = if is_meant certification_id c then apply_changes s c else c

-- What the rows of `RETURNING` lead to.
unfoldable pub one_row : List CertificationRow → Operation CertificationRow
one_row [] = throw registrar_certification_does_not_exist
one_row (c ∷ []) = return c
one_row (c ∷ d ∷ cs) = throw too_many_certifications

unfoldable pub store_changes : CertificationId → Changes → Operation CertificationRow
unfolding apply_changes one_row
store_changes certification_id s db =
    let rows =
      map (apply_changes s) (filter (is_meant certification_id) db.registrar_certification) in
    let stored = record db {
      registrar_certification = map (update_row certification_id s) db.registrar_certification;
    } in
    if set_nothing s then (err refused_query, db) else one_row rows stored

unfoldable pub update_registrar_certification :
    ℕ → CertificationId → Option Date → Option ℤ → Option FileId → Operation CertificationRow
unfolding changed_until changed_classification changed_file store_changes
update_registrar_certification local_date certification_id valid_until classification eval_file_id =
    do
      until ← changed_until local_date certification_id valid_until
      score ← changed_classification classification
      uuid ← changed_file eval_file_id
      store_changes certification_id
          (record { valid_until = until; classification = score; eval_file_uuid = uuid })
