-- ===== src/Registrar/Certification/Disjoint.antt =====
-- No day of a registrar is covered by two certifications.
use fred_libfred.Common.{ℕ, ◌≡◌, List, [], ◌∷◌, All, false, Option, arith}
use fred_libfred.Registrar.Periods
use fred_libfred.Registrar.Certification.{CertificationRow}
use fred_libfred.Registrar.Certification.Create.{truncate, would_overlap}
use fred_libfred.Registrar.Certification.Days.{covers}

abbrev pub registrar_of : CertificationRow → ℕ
registrar_of c = c.registrar_id

abbrev pub Apart : CertificationRow → CertificationRow → Type 0
Apart = Periods.Apart registrar_of covers

abbrev pub Disjoint : List CertificationRow → Type 0
Disjoint = Periods.Disjoint registrar_of covers

abbrev pub Within : CertificationRow → CertificationRow → Type 0
Within = Periods.Within registrar_of covers

pub truncate-Within :
    (id : Option ℕ) (from : ℕ) (c : CertificationRow) → Within (truncate id from c) c
unfolding truncate
truncate-Within id from c = (ground arith, λ d h. ground arith)

-- Where nothing would overlap, a row from `from` on is apart from all.
pub free-Apart :
    (from : ℕ) (c : CertificationRow) (cs : List CertificationRow)
    → c.valid_from ≡ from
    → would_overlap c.registrar_id from cs ≡ false
    → All (λ x. Apart x c) cs
unfolding would_overlap
free-Apart from c [] start h = tt
free-Apart from c (x ∷ cs) start h =
    (λ d same on. ground arith, free-Apart from c cs start (ground arith))
