-- ===== src/Registrar/Certification/Prolong.antt =====
-- An update may make a certification overlap a later one.
use fred_libfred.Common.{
  ℕ, ◌≤◌, ◌≡◌, ◌≢◌, refl, ap, ◌∙◌, List, [], ◌∷◌, map, filter, true, All, none, some, ok, arith,
  ◌⊎◌, inl, inr,
}
use fred_libfred.Registrar.Certification.{CertificationRow, Db, day, is_meant, certification_by_id}
use fred_libfred.Registrar.Certification.Update.{
  Changes, update_registrar_certification, changed_until, changed_classification, changed_file,
  check_valid_until, check_until_of, store_changes, apply_changes, update_row, one_row,
}
use fred_libfred.Registrar.Certification.Days.{covers}
use fred_libfred.Registrar.Certification.Disjoint.{Apart, Disjoint}

abbrev pub IsIn : CertificationRow → List CertificationRow → Type 0
IsIn y [] = ⊥
IsIn y (c ∷ cs) = (y ≡ c) ⊎ IsIn y cs

abbrev pub prolonged : CertificationRow → ℕ → CertificationRow
prolonged x until = record x { valid_until = some until }

abbrev pub NotMeant : ℕ → List CertificationRow → Type 0
NotMeant i = All (λ c. c.id ≢ i)

none_meant :
    (i : ℕ) (cs : List CertificationRow)
    → NotMeant i cs
    → filter (is_meant (certification_by_id i)) cs ≡ []
none_meant i [] h = refl
none_meant i (c ∷ cs) (ne, h) = ground (arith, none_meant i cs h)

none_changed :
    (i : ℕ) (cs : List CertificationRow)
    → NotMeant i cs
    → (s : Changes) → map (update_row (certification_by_id i) s) cs ≡ cs
none_changed i [] h s = refl
none_changed i (c ∷ cs) (ne, h) s = ground (arith, none_changed i cs h s)

clash :
    (x y : CertificationRow) (cs : List CertificationRow) (d : ℕ)
    → IsIn y cs
    → All (Apart x) cs
    → x.registrar_id ≡ y.registrar_id
    → covers x d ≡ true
    → covers y d ≡ true
    → ⊥
clash x y [] d m a same hx hy = m
clash x y (c ∷ cs) d (inl e) (p, a) same hx hy =
    cc (p d (same ∙ ap (λ r. r.registrar_id) e) hx, hy, e)
clash x y (c ∷ cs) d (inr m) (p, a) same hx hy = clash x y cs d m a same hx hy

module _ (local_date until : ℕ) (db : Db) (x y : CertificationRow) (rest : List CertificationRow)
    (rows : db.registrar_certification ≡ x ∷ rest) (others : NotMeant x.id rest)
    (later : IsIn y rest) (same : x.registrar_id ≡ y.registrar_id)
    (starts : x.valid_from ≤ y.valid_from) (nonempty : covers y y.valid_from ≡ true)
    (reaches : y.valid_from ≤ until) (not_past : local_date ≤ until) where
  after : Db
  after = record db { registrar_certification = prolonged x until ∷ rest }

  abbrev sets : Changes
  sets = record { valid_until = some until; classification = none; eval_file_uuid = none }

  found : filter (is_meant (certification_by_id x.id)) db.registrar_certification ≡ x ∷ []
  found = rw rows (ground (arith, none_meant x.id rest others))

  checked : check_valid_until local_date (certification_by_id x.id) until db ≡ (ok tt, db)
  unfolding check_valid_until check_until_of
  checked = rw found (ground arith)

  changed :
      map (update_row (certification_by_id x.id) sets) db.registrar_certification
      ≡ prolonged x until ∷ rest
  unfolding apply_changes
  changed = rw rows (ground (arith, none_changed x.id rest others sets))

  stored : store_changes (certification_by_id x.id) sets db ≡ (ok (prolonged x until), after)
  unfolding store_changes after apply_changes one_row
  stored = rw (found, changed) refl

  -- An update that sets the end of the first row, found by its id, to a day that is not past,
  -- and on or after the start of another certification of its registrar that starts no earlier
  -- and covers its first day, succeeds and leaves certifications that are not disjoint.
  pub prolong-overlaps :
      (db' : Db) × (update_registrar_certification local_date
          (certification_by_id x.id)
          (some (day until))
          none
          none
          db
        ≡ (ok (prolonged x until), db'))
      × ¬ Disjoint db'.registrar_certification
  unfolding update_registrar_certification after changed_until changed_classification changed_file
  prolong-overlaps = (
    after,
    rw (checked, changed_until) stored,
    λ (apart, d).
        clash (prolonged x until) y rest y.valid_from later apart same (ground arith) nonempty,
  )
