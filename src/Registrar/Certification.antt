-- ===== src/Registrar/Certification.antt =====
-- Certifications of registrars (src/libfred/registrar/certification): the tables that the operations
-- read and write, what they throw, and how they say which row is meant.
pub mod Create
pub mod Update
pub mod Delete
pub mod Days
pub mod Created
pub mod Disjoint
pub mod Commands
pub mod Prolong
pub mod Accept
mod Tests
use fred_libfred.Common.Operations
use fred_libfred.Common.Operations.{throw_if}
use fred_libfred.Common.{
  ℕ, List, [], ◌∷◌, Text, text_eq, ◌==◌, any, if◌then◌else◌, Bool, not, false, leb, ℤ, pos, negsuc,
  Option, none, some, Result, ok, err,
}

pub record RegistrarRow : Type 0 where
  pub id : ℕ
  pub handle : Text

pub record FileRow : Type 0 where
  pub id : ℕ
  pub uuid : ℕ

-- A row of `registrar_certification`; days are numbered. `eval_file_id`, which the operations only
-- read back, is left out.
pub record CertificationRow : Type 0 where
  pub id : ℕ
  pub uuid : ℕ
  pub registrar_id : ℕ
  pub valid_from : ℕ
  pub valid_until : Option ℕ
  pub classification : ℤ
  pub eval_file_uuid : ℕ

-- `next_id` is the sequence behind the ids, `next_uuid` the generator of the other key.
pub record Db : Type 0 where
  pub registrar : List RegistrarRow
  pub files : List FileRow
  pub registrar_certification : List CertificationRow
  pub next_id : ℕ
  pub next_uuid : ℕ → ℕ

-- `boost::gregorian::date`.
pub data Date : Type 0 where
  day : ℕ → Date
  special : Date

-- `RegistrarIdVariant`.
pub data RegistrarId : Type 0 where
  registrar_by_id : ℕ → RegistrarId
  registrar_by_handle : Text → RegistrarId

-- `FileIdVariant`.
pub data FileId : Type 0 where
  file_by_id : ℕ → FileId
  file_by_uuid : ℕ → FileId

-- `RegistrarCertificationIdVariant`.
pub data CertificationId : Type 0 where
  certification_by_id : ℕ → CertificationId
  certification_by_uuid : ℕ → CertificationId

pub data CertificationError : Type 0 where
  score_out_of_range invalid_date_from invalid_date_to wrong_interval_order : CertificationError
  certification_in_past overlapping_range registrar_not_found : CertificationError
  file_does_not_exist registrar_certification_does_not_exist : CertificationError
  too_many_registrars too_many_files too_many_certifications : CertificationError
  -- the database refuses an update that sets nothing, and a certification of no registrar
  refused_query : CertificationError

abbrev pub Operation : Type 0 → Type 0
Operation = Operations.Operation CertificationError Db

-- `id = $1` and `uuid = $1`.
abbrev pub is_meant : CertificationId → CertificationRow → Bool
is_meant (certification_by_id i) c = c.id == i
is_meant (certification_by_uuid u) c = c.uuid == u

abbrev pub is_file : FileId → FileRow → Bool
is_file (file_by_id i) f = f.id == i
is_file (file_by_uuid u) f = f.uuid == u

-- The scalar subquery `SELECT id FROM registrar WHERE handle = …`; handles are unique.
abbrev pub id_of_handle : Text → List RegistrarRow → Option ℕ
id_of_handle handle [] = none
id_of_handle handle (r ∷ rs) = if text_eq r.handle handle then some r.id else id_of_handle handle rs

module _ (upper : Text → Text) where
  -- `MakeRegistrarIdSql`: the value that the text of the query stands for, `none` for NULL.
  unfoldable pub make_registrar_id_sql : RegistrarId → Db → Option ℕ
  make_registrar_id_sql (registrar_by_id i) db = some i
  make_registrar_id_sql (registrar_by_handle handle) db = id_of_handle (upper handle) db.registrar

-- `check_classification`, in both files.
abbrev pub is_score : ℤ → Bool
is_score (pos n) = leb n 5
is_score (negsuc n) = false

unfoldable pub check_classification : ℤ → Operation (Unit {0})
check_classification c = throw_if (not (is_score c)) score_out_of_range
