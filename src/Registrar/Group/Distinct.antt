-- ===== src/Registrar/Group/Distinct.antt =====
-- Groups keep distinct names.
use fred_libfred.Common.{
  ℕ, suc, ◌≡◌, ◌≢◌, refl, sym, ap, subst, ◌∙◌, List, [], ◌∷◌, ◌++◌, map, Text, text_eq,
  text_eq_refl, ◌==◌, any, All, any-false→All, false, Bool-cases, inl, inr, none, arith, ==_iff,
  ◌<◌, ◌&&◌,
}
use fred_libfred.Registrar.Group.{
  GroupRow, Db, is_set, is_current, has_name, create_registrar_group, rename,
  update_registrar_group, cancel, cancel_registrar_group,
}

abbrev pub Differ : GroupRow → GroupRow → Type 0
Differ g h = (g.id ≢ h.id) × (g.short_name ≢ h.short_name)

abbrev pub AllDiffer : List GroupRow → Type 0
AllDiffer [] = Unit
AllDiffer (g ∷ gs) = All (Differ g) gs × AllDiffer gs

-- The ids and the names of the groups are distinct, and the sequence is ahead of the ids.
abbrev pub Distinct : Db → Type 0
Distinct db = AllDiffer db.registrar_group × All (λ g. g.id < db.next_group_id) db.registrar_group

other_name : (name : Text) (g : GroupRow) → has_name name g ≡ false → g.short_name ≢ name
other_name name g h same = cc (h, ap (λ t. text_eq t name) same, text_eq_refl name)

Differ-new :
    (name : Text) (next : ℕ) (g n : GroupRow)
    → g.id < next
    → has_name name g ≡ false
    → n.id ≡ next
    → n.short_name ≡ name
    → Differ g n
Differ-new name next g n less free is_next is_name =
    (λ same. omega (arith, same, is_next, less), λ same. other_name name g free (same ∙ is_name))

all-Differ :
    (name : Text) (next : ℕ) (n : GroupRow) (gs : List GroupRow)
    → n.id ≡ next
    → n.short_name ≡ name
    → All (λ g. g.id < next) gs
    → All (λ g. has_name name g ≡ false) gs
    → All (λ g. Differ g n) gs
all-Differ name next n [] is_next is_name less free = tt
all-Differ name next n (g ∷ gs) is_next is_name (l, less) (f, free) = (
  Differ-new name next g n l f is_next is_name,
  all-Differ name next n gs is_next is_name less free,
)

append-All :
    (P : GroupRow → Type 0) (gs : List GroupRow) (n : GroupRow)
    → All P gs
    → P n
    → All P (gs ++ n ∷ [])
append-All P [] n h p = (p, tt)
append-All P (g ∷ gs) n (q, h) p = (q, append-All P gs n h p)

append-AllDiffer :
    (gs : List GroupRow) (n : GroupRow)
    → AllDiffer gs
    → All (λ g. Differ g n) gs
    → AllDiffer (gs ++ n ∷ [])
append-AllDiffer [] n h a = (tt, tt)
append-AllDiffer (g ∷ gs) n (d, h) (p, a) =
    (append-All (Differ g) gs n d p, append-AllDiffer gs n h a)

later-All :
    (next : ℕ) (gs : List GroupRow) → All (λ g. g.id < next) gs → All (λ g. g.id < suc next) gs
later-All next [] h = tt
later-All next (g ∷ gs) (l, h) = (omega (arith, l), later-All next gs h)

create-Distinct :
    (name : Text) (db : Db) → Distinct db → Distinct (create_registrar_group name db).1
unfolding create_registrar_group
create-Distinct [] db d = d
create-Distinct (c ∷ s) db (d, ahead) =
    elim (Bool-cases (any (has_name (c ∷ s)) db.registrar_group)) [
      | inl e ↦ rw e (d, ahead)
      | inr e ↦
          let n : GroupRow = record {
            id = db.next_group_id;
            short_name = c ∷ s;
            cancelled = none;
          } in
          rw e (
            append-AllDiffer db.registrar_group n d (
                all-Differ (c ∷ s) db.next_group_id n db.registrar_group refl refl ahead
                  (any-false→All (has_name (c ∷ s)) db.registrar_group e)),
            append-All (λ g. g.id < suc db.next_group_id) db.registrar_group n
                (later-All db.next_group_id db.registrar_group ahead) (ground arith),
          )
    ]

module _ (f : GroupRow → GroupRow) (keeps_id : (g : GroupRow) → (f g).id ≡ g.id) where
  map-ahead :
      (next : ℕ) (gs : List GroupRow)
      → All (λ g. g.id < next) gs
      → All (λ g. g.id < next) (map f gs)
  map-ahead next [] h = tt
  map-ahead next (g ∷ gs) (l, h) = (subst (λ i. i < next) (sym (keeps_id g)) l, map-ahead next gs h)

-- Renamed to a name that no group has, groups with distinct ids differ as before.
rename-Differ :
    (id : ℕ) (name : Text) (g h : GroupRow)
    → has_name name g ≡ false
    → has_name name h ≡ false
    → Differ g h
    → Differ (rename id name g) (rename id name h)
rename-Differ id name g h free_g free_h (ids, names) = elim (Bool-cases (g.id == id)) [
  | inl e ↦ elim (Bool-cases (h.id == id)) [
    | inl k ↦ absurd (ids ((==_iff g.id id).0 e ∙ sym ((==_iff h.id id).0 k)))
    | inr k ↦ rw (e, k) (ids, λ same. other_name name h free_h (sym same))
  ]
  | inr e ↦ elim (Bool-cases (h.id == id)) [
    | inl k ↦ rw (e, k) (ids, other_name name g free_g)
    | inr k ↦ rw (e, k) (ids, names)
  ]
]

rename-All :
    (id : ℕ) (name : Text) (g : GroupRow) (gs : List GroupRow)
    → has_name name g ≡ false
    → All (λ h. has_name name h ≡ false) gs
    → All (Differ g) gs
    → All (Differ (rename id name g)) (map (rename id name) gs)
rename-All id name g [] free frees h = tt
rename-All id name g (x ∷ gs) free (f, frees) (d, h) =
    (rename-Differ id name g x free f d, rename-All id name g gs free frees h)

rename-AllDiffer :
    (id : ℕ) (name : Text) (gs : List GroupRow)
    → All (λ h. has_name name h ≡ false) gs
    → AllDiffer gs
    → AllDiffer (map (rename id name) gs)
rename-AllDiffer id name [] frees h = tt
rename-AllDiffer id name (g ∷ gs) (f, frees) (d, h) =
    (rename-All id name g gs f frees d, rename-AllDiffer id name gs frees h)

rename_id : (id : ℕ) (name : Text) (g : GroupRow) → (rename id name g).id ≡ g.id
rename_id id name g = elim (Bool-cases (g.id == id)) [ inl e ↦ rw e refl | inr e ↦ rw e refl ]

update-Distinct :
    (id : ℕ) (name : Text) (db : Db) → Distinct db → Distinct (update_registrar_group id name db).1
unfolding update_registrar_group
update-Distinct id [] db d = d
update-Distinct id (c ∷ s) db (d, ahead) =
    elim (Bool-cases (any (has_name (c ∷ s)) db.registrar_group)) [
      | inl e ↦ rw e (d, ahead)
      | inr e ↦ rw e (
        rename-AllDiffer id (c ∷ s) db.registrar_group
            (any-false→All (has_name (c ∷ s)) db.registrar_group e) d,
        map-ahead (rename id (c ∷ s)) (rename_id id (c ∷ s)) db.next_group_id db.registrar_group
            ahead,
      )
    ]

cancel_same :
    (now id : ℕ) (g : GroupRow)
    → ((cancel now id g).id ≡ g.id) × ((cancel now id g).short_name ≡ g.short_name)
cancel_same now id g = elim (Bool-cases (g.id == id)) [
  | inl e ↦ rw e (refl, refl)
  | inr e ↦ rw e (refl, refl)
]

cancel-All :
    (now id : ℕ) (g : GroupRow) (gs : List GroupRow)
    → All (Differ g) gs
    → All (Differ (cancel now id g)) (map (cancel now id) gs)
cancel-All now id g [] h = tt
cancel-All now id g (x ∷ gs) ((ids, names), h) =
    let (gi, gn) = cancel_same now id g in
    let (xi, xn) = cancel_same now id x in
    (
      (λ same. ids (sym gi ∙ (same ∙ xi)), λ same. names (sym gn ∙ (same ∙ xn))),
      cancel-All now id g gs h,
    )

cancel-AllDiffer :
    (now id : ℕ) (gs : List GroupRow) → AllDiffer gs → AllDiffer (map (cancel now id) gs)
cancel-AllDiffer now id [] h = tt
cancel-AllDiffer now id (g ∷ gs) (d, h) = (cancel-All now id g gs d, cancel-AllDiffer now id gs h)

cancel-Distinct :
    (now today id : ℕ) (db : Db) → Distinct db → Distinct (cancel_registrar_group now today id db).1
unfolding cancel_registrar_group
cancel-Distinct now today id db (d, ahead) =
    elim (Bool-cases (any (λ g. g.id == id && is_set g.cancelled) db.registrar_group)) [
      | inl e ↦ rw e (d, ahead)
      | inr e ↦
          elim (Bool-cases (
            any (λ m. m.registrar_group_id == id && is_current today m.member_from m.member_until)
              db.registrar_group_map)) [
                | inl k ↦ rw (e, k) (d, ahead)
                | inr k ↦
                    rw (e, k)
                      (
                        cancel-AllDiffer now id db.registrar_group d,
                        map-ahead (cancel now id) (λ g. (cancel_same now id g).0) db.next_group_id
                            db.registrar_group ahead,
                      )
              ]
    ]

pub data Call : Type 0 where
  create : Text → Call
  update : ℕ → Text → Call
  cancelled_on : ℕ → ℕ → ℕ → Call

abbrev pub call : Call → Db → Db
call (create name) db = (create_registrar_group name db).1
call (update id name) db = (update_registrar_group id name db).1
call (cancelled_on now today id) db = (cancel_registrar_group now today id db).1

abbrev pub run : List Call → Db → Db
run [] db = db
run (c ∷ cs) db = run cs (call c db)

-- Any sequence of creations, updates and cancellations of groups keeps their ids and their names
-- distinct, and the sequence of ids ahead of them.
pub run_groups-Distinct : (cs : List Call) (db : Db) → Distinct db → Distinct (run cs db)
run_groups-Distinct [] db d = d
run_groups-Distinct (create name ∷ cs) db d = run_groups-Distinct cs _ (create-Distinct name db d)
run_groups-Distinct (update id name ∷ cs) db d =
    run_groups-Distinct cs _ (update-Distinct id name db d)
run_groups-Distinct (cancelled_on now today id ∷ cs) db d =
    run_groups-Distinct cs _ (cancel-Distinct now today id db d)
