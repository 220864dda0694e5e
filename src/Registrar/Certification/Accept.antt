-- ===== src/Registrar/Certification/Accept.antt =====
-- A creation succeeds where no certification of the registrar starts later.
use fred_libfred.Common.{
  ℕ, ◌≤◌, ◌<◌, ◌≡◌, refl, List, [], ◌∷◌, map, Text, ◌==◌, All, filter, true, false, Bool-cases, ◌⊎◌,
  inl, inr, some, ℤ, ok, arith,
}
use fred_libfred.Registrar.Certification.{
  RegistrarRow, FileRow, CertificationRow, Db, Date, day, special, RegistrarId, FileId, is_score,
  make_registrar_id_sql, check_classification, is_file,
}
use fred_libfred.Registrar.Certification.Create.{
  truncate, is_truncated, truncated, truncate_validity, would_overlap, check_validity, is_many,
  registrars_meant, overlap_verdict, check_validity_overlapping, insert_one_record, new_row,
  with_row, create_registrar_certification,
}
use fred_libfred.Registrar.Certification.Created.{meant_id}
use fred_libfred.Registrar.Certification.Days.{covers, ends_before}
use fred_libfred.Registrar.Certification.Disjoint.{Apart, Disjoint}

truncated-covers :
    (i from : ℕ) (c : CertificationRow)
    → is_truncated (some i) from c ≡ true
    → (c.registrar_id ≡ i) × (covers c from ≡ true)
unfolding is_truncated
truncated-covers i from c h = ground arith

covers-false :
    (i from : ℕ) (c : CertificationRow)
    → c.registrar_id ≡ i
    → covers c from ≡ false
    → is_truncated (some i) from c ≡ false
unfolding is_truncated
covers-false i from c e h = ground arith

none_truncated :
    (i from : ℕ) (x : CertificationRow) (cs : List CertificationRow)
    → is_truncated (some i) from x ≡ true
    → All (Apart x) cs
    → filter (is_truncated (some i) from) cs ≡ []
none_truncated i from x [] t a = refl
none_truncated i from x (c ∷ cs) t (p, a) = elim (Bool-cases (is_truncated (some i) from c)) [
  | inl e ↦
      let (rx, on) = truncated-covers i from x t in
      let (rc, on_c) = truncated-covers i from c e in cc (p from (cc) on, on_c)
  | inr e ↦ rw e (none_truncated i from x cs t a)
]

-- At most one certification is truncated.
one_truncated :
    (i from : ℕ) (cs : List CertificationRow)
    → Disjoint cs
    → is_many (filter (is_truncated (some i) from) cs) ≡ false
one_truncated i from [] h = refl
one_truncated i from (c ∷ cs) (a, h) = elim (Bool-cases (is_truncated (some i) from c)) [
  | inl e ↦ rw (e, none_truncated i from c cs e a) refl
  | inr e ↦ rw e (one_truncated i from cs h)
]

-- The certification starts before the day, or has ended.
abbrev pub Yields : ℕ → ℕ → CertificationRow → Type 0
Yields i from c =
    c.registrar_id ≡ i → (c.valid_from < from) ⊎ (ends_before c.valid_until from ≡ true)

Yields-free :
    (i from : ℕ) (c : CertificationRow)
    → Yields i from c
    → would_overlap i from (truncate (some i) from c ∷ []) ≡ false
unfolding would_overlap truncate
Yields-free i from c y = elim (Bool-cases (c.registrar_id == i)) [
  | inl e ↦ elim (y (ground arith)) [ inl early ↦ ground arith | inr over ↦ ground arith ]
  | inr e ↦ ground arith
]

all_free :
    (i from : ℕ) (cs : List CertificationRow)
    → All (Yields i from) cs
    → would_overlap i from (map (truncate (some i) from) cs) ≡ false
unfolding would_overlap
all_free i from [] h = refl
all_free i from (c ∷ cs) (y, h) = ground (arith, Yields-free i from c y, all_free i from cs h)

-- The end of the validity is open, or it is after the start and not past.
abbrev pub EndAllowed : ℕ → ℕ → Date → Type 0
EndAllowed current_date from special = Unit
EndAllowed current_date from (day until) = (from < until) × (current_date ≤ until)

scored : (c : ℤ) (db : Db) → is_score c ≡ true → check_classification c db ≡ (ok tt, db)
unfolding check_classification
scored c db h = ground arith

valid :
    (current_date from : ℕ) (valid_until : Date) (db : Db)
    → EndAllowed current_date from valid_until
    → check_validity current_date (day from) valid_until db ≡ (ok from, db)
unfolding check_validity
valid current_date from special db h = refl
valid current_date from (day until) db h = ground arith

cut :
    (i from : ℕ) (db : Db)
    → Disjoint db.registrar_certification
    → truncate_validity (some i) from db ≡ (ok tt, truncated (some i) from db)
unfolding truncate_validity
cut i from db h = rw (one_truncated i from db.registrar_certification h) refl

free :
    (i from : ℕ) (r : RegistrarRow) (db : Db)
    → registrars_meant (some i) db.registrar ≡ r ∷ []
    → All (Yields i from) db.registrar_certification
    → check_validity_overlapping (some i) from (truncated (some i) from db)
      ≡ (ok tt, truncated (some i) from db)
unfolding check_validity_overlapping overlap_verdict truncated
free i from r db e h =
    rw (e, meant_id i db.registrar r [] e, all_free i from db.registrar_certification h) refl

module _ (upper : Text → Text) (current_date : ℕ) (registrar_id : RegistrarId) (valid_until : Date)
    (classification : ℤ) (file_id : FileId) (db : Db) where
  -- Where the certifications of all registrars are disjoint, the score and the dates are
  -- allowed, the registrar (once) and the file are found, and each certification of the
  -- registrar starts before the new one or has ended, the creation returns: the one that lasts
  -- is truncated and the new row is stored.
  pub create_accepts_later :
      (i from : ℕ) (r : RegistrarRow) (f : FileRow) (fs : List FileRow)
      → is_score classification ≡ true
      → EndAllowed current_date from valid_until
      → make_registrar_id_sql upper registrar_id db ≡ some i
      → registrars_meant (some i) db.registrar ≡ r ∷ []
      → filter (is_file file_id) db.files ≡ f ∷ fs
      → Disjoint db.registrar_certification
      → All (Yields i from) db.registrar_certification
      → create_registrar_certification upper current_date registrar_id
          (day from)
          valid_until
          classification
          file_id
          db
        ≡ (let cut = truncated (some i) from db in
            let row = new_row i from valid_until classification f cut in (ok row, with_row row cut))
  unfolding create_registrar_certification insert_one_record
  create_accepts_later i from r f fs score end meant registrars files disjoint yields =
      rw (scored classification db score) (
        rw (valid current_date from valid_until db end) (
          rw meant (
            rw (cut i from db disjoint) (rw (free i from r db registrars yields) (rw files refl)))))
