-- ===== src/Registrar/Certification/Delete.antt =====
-- `delete_registrar_certification` (src/libfred/registrar/certification/
-- delete_registrar_certification.cc) and `GetRegistrarCertifications::exec`
-- (src/libfred/registrar/certification/get_registrar_certifications.cc).
use fred_libfred.Common.{ℕ, List, [], ◌∷◌, ◌==◌, filter, not, Result, ok, err}
use fred_libfred.Registrar.Certification.{
  RegistrarRow, CertificationRow, Db, CertificationId, CertificationError, Operation, is_meant,
  registrar_not_found,
}
use fred_libfred.Registrar.Certification.Update.{one_row}

unfoldable pub delete_registrar_certification : CertificationId → Operation CertificationRow
unfolding one_row
delete_registrar_certification certification_id db =
    one_row (filter (is_meant certification_id) db.registrar_certification) (record db {
      registrar_certification =
          filter (λ c. not (is_meant certification_id c)) db.registrar_certification;
    })

-- `order_by` is `ORDER BY 3 DESC, 1 DESC`; a registrar is found at most once.
module _ (order_by : List CertificationRow → List CertificationRow) where
  unfoldable pub certifications_of :
      ℕ
      → List CertificationRow
      → List RegistrarRow
      → Result CertificationError (List CertificationRow)
  certifications_of registrar_id rows [] = err registrar_not_found
  certifications_of registrar_id rows (r ∷ rs) =
      ok (order_by (filter (λ c. c.registrar_id == registrar_id) rows))

  unfoldable pub get_registrar_certifications :
      ℕ → Db → Result CertificationError (List CertificationRow)
  unfolding certifications_of
  get_registrar_certifications registrar_id db =
      certifications_of registrar_id db.registrar_certification
        (filter (λ r. r.id == registrar_id) db.registrar)
