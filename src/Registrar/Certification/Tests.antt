-- ===== src/Registrar/Certification/Tests.antt =====
-- The operations on concrete tables.
use fred_libfred.Common.{
  ℕ, ◌+◌, ◌≡◌, refl, List, [], ◌∷◌, Text, ◌==◌, leb, if◌then◌else◌, ◌&&◌, pos, negsuc, none, some,
  inl, ok, err, arith,
}
use fred_libfred.Registrar.Certification.{
  RegistrarRow, FileRow, CertificationRow, Db, day, special, registrar_by_id, registrar_by_handle,
  file_by_id, file_by_uuid, certification_by_id, certification_by_uuid, make_registrar_id_sql,
  score_out_of_range, overlapping_range, certification_in_past,
  registrar_certification_does_not_exist, registrar_not_found,
}
use fred_libfred.Registrar.Certification.Create.{
  create_registrar_certification, truncate_validity, truncated, new_row, with_row, end_or_null,
}
use fred_libfred.Registrar.Certification.Update.{update_registrar_certification}
use fred_libfred.Registrar.Certification.Delete.{
  delete_registrar_certification, get_registrar_certifications,
}
use fred_libfred.Registrar.Certification.Days.{covers, certification_on, create-certification_on}
use fred_libfred.Registrar.Certification.Disjoint.{Disjoint}
use fred_libfred.Registrar.Certification.Commands.{
  AreDisjoint, Command, certify, reassess, revoke, run, run-Disjoint,
}
use fred_libfred.Registrar.Certification.Prolong.{prolonged, prolong-overlaps}
use fred_libfred.Registrar.Certification.Accept.{create_accepts_later}

abbrev alfa : RegistrarRow
alfa = record { id = 1; handle = 65 ∷ [] }

abbrev report : FileRow
report = record { id = 7; uuid = 70 }

abbrev open_end : CertificationRow
open_end = record {
  id = 1;
  uuid = 101;
  registrar_id = 1;
  valid_from = 10;
  valid_until = none;
  classification = pos 3;
  eval_file_uuid = 70;
}

abbrev closed : CertificationRow
closed = record open_end { id = 2; uuid = 102; valid_from = 2; valid_until = some 5 }

abbrev tables : Db
tables = record {
  registrar = alfa ∷ [];
  files = report ∷ [];
  registrar_certification = closed ∷ open_end ∷ [];
  next_id = 3;
  next_uuid = λ i. 100 + i;
}

abbrev as_is : Text → Text
as_is t = t

abbrev renewed : CertificationRow
renewed = record open_end {
  id = 3;
  uuid = 103;
  valid_from = 20;
  valid_until = some 30;
  classification = pos 5;
}

abbrev after_renewal : Db
after_renewal = record tables {
  registrar_certification = closed ∷ record open_end { valid_until = some 19 } ∷ renewed ∷ [];
  next_id = 4;
}

renewal :
    create_registrar_certification as_is 15
      (registrar_by_handle (65 ∷ []))
      (day 20)
      (day 30)
      (pos 5)
      (file_by_id 7)
      tables
    ≡ (ok renewed, after_renewal)
unfolding create_registrar_certification truncate_validity
renewal = refl

score_too_high :
    create_registrar_certification as_is 15
      (registrar_by_id 1)
      (day 20)
      special
      (pos 6)
      (file_by_id 7)
      tables
    ≡ (err score_out_of_range, tables)
unfolding create_registrar_certification
score_too_high = refl

score_negative :
    create_registrar_certification as_is 15
      (registrar_by_id 1)
      (day 20)
      special
      (negsuc 0)
      (file_by_id 7)
      tables
    ≡ (err score_out_of_range, tables)
unfolding create_registrar_certification
score_negative = refl

-- The creation starts before a certification that lasts.
too_early :
    create_registrar_certification as_is 4
      (registrar_by_id 1)
      (day 9)
      special
      (pos 1)
      (file_by_id 7)
      tables
    ≡ (err overlapping_range, tables)
unfolding create_registrar_certification
too_early = refl

no_such_registrar :
    create_registrar_certification as_is 4
      (registrar_by_id 9)
      (day 9)
      special
      (pos 1)
      (file_by_id 7)
      tables
    ≡ (err registrar_not_found, tables)
unfolding create_registrar_certification
no_such_registrar = refl

ended_today :
    update_registrar_certification 15
      (certification_by_uuid 101)
      (some (day 15))
      (some (pos 0))
      (some (file_by_uuid 70))
      tables
    ≡ (
      ok (record open_end { valid_until = some 15; classification = pos 0 }),
      record tables {
        registrar_certification =
            closed ∷ record open_end { valid_until = some 15; classification = pos 0 } ∷ [];
      },
    )
unfolding update_registrar_certification
ended_today = refl

ended_yesterday :
    update_registrar_certification 15 (certification_by_id 1) (some (day 14)) none none tables
    ≡ (err certification_in_past, tables)
unfolding update_registrar_certification
ended_yesterday = refl

removed :
    delete_registrar_certification (certification_by_id 2) tables
    ≡ (ok closed, record tables { registrar_certification = open_end ∷ [] })
unfolding delete_registrar_certification
removed = refl

removed_twice :
    (delete_registrar_certification (certification_by_id 5) tables).0
    ≡ err registrar_certification_does_not_exist
unfolding delete_registrar_certification
removed_twice = refl

listed : get_registrar_certifications (λ rows. rows) 1 tables ≡ ok (closed ∷ open_end ∷ [])
unfolding get_registrar_certifications
listed = refl

tables-AreDisjoint : AreDisjoint tables
tables-AreDisjoint = ((λ d same on. ground arith, tt), (tt, tt))

create-certification_on_example :
    (make_registrar_id_sql as_is (registrar_by_handle (65 ∷ [])) tables ≡ some 1)
    × (day 20 ≡ day 20)
    × (some 30 ≡ end_or_null (day 30))
    × (pos 5 ≡ pos 5)
    × ((r d : ℕ)
        → certification_on r d after_renewal.registrar_certification ≡ (
            if 1 == r && leb 20 d
            then (if covers renewed d then some 3 else none)
            else certification_on r d tables.registrar_certification))
create-certification_on_example =
    create-certification_on as_is 15 (registrar_by_handle (65 ∷ [])) (day 20) (day 30) (pos 5)
      (file_by_id 7) tables renewal

abbrev commands : List Command
commands =
    certify 15 (registrar_by_id 1) (day 20) (day 30) (pos 5) (file_by_id 7)
    ∷ reassess 15 (certification_by_id 1) (some (pos 2)) none
    ∷ revoke (certification_by_id 2)
    ∷ []

run-Disjoint_example : AreDisjoint (run as_is commands tables)
run-Disjoint_example = run-Disjoint as_is commands tables tables-AreDisjoint

prolong-overlaps_example :
    (db' : Db) × (update_registrar_certification 4
        (certification_by_id 2)
        (some (day 12))
        none
        none
        tables
      ≡ (ok (prolonged closed 12), db'))
    × ¬ Disjoint db'.registrar_certification
prolong-overlaps_example =
    prolong-overlaps 4 12 tables closed open_end (open_end ∷ []) refl (omega arith, tt) (inl refl)
      refl (omega arith) refl (omega arith) (omega arith)

made : make_registrar_id_sql as_is (registrar_by_id 1) tables ≡ some 1
unfolding make_registrar_id_sql
made = refl

create_accepts_later_example :
    create_registrar_certification as_is 15
      (registrar_by_id 1)
      (day 20)
      (day 30)
      (pos 5)
      (file_by_id 7)
      tables
    ≡ (let cut = truncated (some 1) 20 tables in
        let row = new_row 1 20 (day 30) (pos 5) report cut in (ok row, with_row row cut))
create_accepts_later_example =
    create_accepts_later as_is 15 (registrar_by_id 1) (day 30) (pos 5) (file_by_id 7) tables 1 20
      alfa report [] refl (omega arith) made refl refl tables-AreDisjoint
      (λ e. inl (omega arith), (λ e. inl (omega arith), tt))
