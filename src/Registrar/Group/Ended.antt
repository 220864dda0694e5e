-- ===== src/Registrar/Group/Ended.antt =====
-- When a membership is created, and what ends one.
use fred_libfred.Common.{
  ℕ, suc, ◌≡◌, ◌≤◌, ◌<◌, refl, sym, ◌∙◌, List, [], ◌∷◌, ◌++◌, ltb, any, any-filter, filter, not,
  Bool, true, false, ◌&&◌, ◌||◌, Bool-cases, inl, inr, Option, none, some, Result, ok, err, arith,
}
use fred_libfred.Registrar.Group.{MembershipRow, Db, GroupError, terminates}
use fred_libfred.Registrar.Group.Membership.{
  Until, pos_infinity, until, is_wrong_order, is_of, last_membership, membership, with_membership,
  after_found, create_registrar_group_membership, Now, lasts, end_registrar_group_membership,
}

abbrev pub is_open : MembershipRow → Bool
is_open m = elim m.member_until [ none ↦ true | some d ↦ false ]

-- The membership lasts after the day.
abbrev pub is_past : ℕ → MembershipRow → Bool
is_past day m = elim m.member_until [ none ↦ true | some d ↦ ltb day d ]

abbrev pub is_ok : {A : Type 0} → Result GroupError A × Db → Bool
is_ok (ok a, db) = true
is_ok (err e, db) = false

abbrev holds : (MembershipRow → Bool) → Option MembershipRow → Bool
holds p none = false
holds p (some m) = p m

last-is_open : (ms : List MembershipRow) → any is_open ms ≡ holds is_open (last_membership ms)
unfolding last_membership
last-is_open [] = refl
last-is_open (m ∷ ms) = ground (arith, last-is_open ms)

last-is_past :
    (day : ℕ) (ms : List MembershipRow)
    → any (is_past day) ms ≡ holds (is_past day) (last_membership ms)
unfolding last_membership
last-is_past day [] = refl
last-is_past day (m ∷ ms) = ground (arith, last-is_past day ms)

-- What is found decides.
found-is_ok :
    (r g from : ℕ) (to : Until) (o : Option MembershipRow) (db : Db)
    → is_ok (after_found r g from to o db) ≡ (holds is_open o || not (holds (is_past from) o))
found-is_ok r g from to none db = refl
found-is_ok r g from to (some m) db = ground arith

-- The creation of a membership returns exactly if its interval is in order, and the registrar
-- has a membership without an end in the group or none of its memberships in the group ends
-- after the day the new one begins.
pub create_membership_iff :
    (r g from : ℕ) (to : Until) (db : Db)
    → is_ok (create_registrar_group_membership r g from to db) ≡ (
        not (is_wrong_order from to)
        && (any (λ m. is_of r g m && is_open m) db.registrar_group_map
            || not (any (λ m. is_of r g m && is_past from m) db.registrar_group_map)))
unfolding create_registrar_group_membership
create_membership_iff r g from to db =
    let rows = filter (is_of r g) db.registrar_group_map in
    elim (Bool-cases (is_wrong_order from to)) [
      | inl e ↦ rw e refl
      | inr e ↦ rw e (
          rw
            (
              sym (any-filter is_open (is_of r g) db.registrar_group_map),
              sym (any-filter (is_past from) (is_of r g) db.registrar_group_map),
              last-is_open rows,
              last-is_past from rows,
            )
            (found-is_ok r g from to (last_membership rows) db))
    ]

filter-append :
    (p : MembershipRow → Bool) (ms ns : List MembershipRow)
    → filter p (ms ++ ns) ≡ filter p ms ++ filter p ns
filter-append p [] ns = refl
filter-append p (m ∷ ms) ns = ground (arith, filter-append p ms ns)

filter-none :
    (p q : MembershipRow → Bool) (ms : List MembershipRow)
    → filter p ms ≡ []
    → filter (λ m. p m && q m) ms ≡ []
filter-none p q [] h = refl
filter-none p q (m ∷ ms) h = elim (Bool-cases (p m)) [
  | inl e ↦ cc (rw e at h)
  | inr e ↦ rw e (filter-none p q ms (rw e at h))
]

of_same : (r g from id : ℕ) (to : Until) → is_of r g (membership r g from to id) ≡ true
of_same r g from id to = ground arith

-- The rows found with one more.
filter-snoc :
    (p : MembershipRow → Bool) (ms found : List MembershipRow) (n : MembershipRow)
    → filter p ms ≡ found
    → p n ≡ true
    → filter p (ms ++ n ∷ []) ≡ found ++ n ∷ []
filter-snoc p ms found n h e = filter-append p ms (n ∷ []) ∙ rw (h, e) refl

first-created :
    (r g from : ℕ) (to : Until) (db : Db)
    → is_wrong_order from to ≡ false
    → filter (is_of r g) db.registrar_group_map ≡ []
    → create_registrar_group_membership r g from to db ≡ with_membership r g from to db
unfolding create_registrar_group_membership last_membership
first-created r g from to db order nothing = rw (order, nothing) refl

second-created :
    (r g from last : ℕ) (to : Until) (db : Db) (m : MembershipRow)
    → is_wrong_order from to ≡ false
    → filter (is_of r g) db.registrar_group_map ≡ m ∷ []
    → m.member_until ≡ some last
    → last ≤ from
    → create_registrar_group_membership r g from to db ≡ with_membership r g from to db
unfolding create_registrar_group_membership last_membership
second-created r g from last to db m order one ends l =
    let late : ltb from last ≡ false = ground arith in rw (order, one, ends, late) refl

two-terminates :
    (now : Now) (r g : ℕ) (db : Db) (m n : MembershipRow)
    → filter (λ m. is_of r g m && lasts now m.member_until) db.registrar_group_map ≡ m ∷ n ∷ []
    → (end_registrar_group_membership now r g db).0 ≡ err terminates
unfolding end_registrar_group_membership
two-terminates now r g db m n h = rw h refl

-- For a registrar without a membership in the group, a membership that ends after the current
-- day and then one without an end that begins on the last day of the first or later are both
-- created, and the end of the membership then terminates the program.
pub create_twice-terminates :
    (r g from last from' : ℕ) (db : Db) (now : Now)
    → filter (is_of r g) db.registrar_group_map ≡ []
    → from ≤ last
    → last ≤ from'
    → now.today < last
    → (let first = create_registrar_group_membership r g from (until last) db in
        let second = create_registrar_group_membership r g from' pos_infinity first.1 in
        (is_ok first ≡ true)
        × (is_ok second ≡ true)
        × ((end_registrar_group_membership now r g second.1).0 ≡ err terminates))
create_twice-terminates r g from last from' db now nothing l l' t =
    let n1 = membership r g from (until last) db.next_map_id in
    let n2 = membership r g from' pos_infinity (suc db.next_map_id) in
    let db1 = (with_membership r g from (until last) db).1 in
    let db2 = (with_membership r g from' pos_infinity db1).1 in
    let lasting : MembershipRow → Bool = λ m. is_of r g m && lasts now m.member_until in
    let order : ltb last from ≡ false = ground arith in
    let p1 = first-created r g from (until last) db order nothing in
    let one =
      filter-snoc (is_of r g) db.registrar_group_map [] n1 nothing
        (of_same r g from db.next_map_id (until last)) in
    let p2 = second-created r g from' last pos_infinity db1 n1 refl one refl l' in
    let none_lasting =
      filter-none (is_of r g) (λ m. lasts now m.member_until) db.registrar_group_map nothing in
    let one_lasting =
      filter-snoc lasting db.registrar_group_map [] n1 none_lasting (ground arith) in
    let two_lasting =
      filter-snoc lasting db1.registrar_group_map (n1 ∷ []) n2 one_lasting (ground arith) in
    rw (p1, p2) (refl, refl, two-terminates now r g db2 n1 n2 two_lasting)
