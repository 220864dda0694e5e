-- ===== src/Registrar/Group/Tests.antt =====
-- The operations on concrete tables.
use fred_libfred.Common.{
  ◌≡◌, refl, List, [], ◌∷◌, codes, any, not, ◌&&◌, ◌||◌, true, false, none, some, ok, err, arith,
}
use fred_libfred.Registrar.Group.{
  GroupRow, MembershipRow, Db, create_registrar_group, update_registrar_group,
  cancel_registrar_group, empty_group_name, group_exists, already_cancelled, nonempty_group_delete,
  wrong_interval_order, interval_intersection, membership_not_found, terminates,
}
use fred_libfred.Registrar.Group.Membership.{
  not_a_date, pos_infinity, until, is_wrong_order, is_of, create_registrar_group_membership, Now,
  end_registrar_group_membership,
}
use fred_libfred.Registrar.Group.Distinct.{
  Distinct, Call, create, update, cancelled_on, run, run_groups-Distinct,
}
use fred_libfred.Registrar.Group.Ended.{
  is_open, is_past, is_ok, create_membership_iff, create_twice-terminates,
}

abbrev old : GroupRow
old = record { id = 1; short_name = codes "old"; cancelled = some 50 }

abbrev certified : GroupRow
certified = record { id = 2; short_name = codes "certified"; cancelled = none }

abbrev early : MembershipRow
early = record {
  id = 1;
  registrar_id = 7;
  registrar_group_id = 2;
  member_from = 1;
  member_until = some 9;
}

abbrev lasting : MembershipRow
lasting = record early { id = 2; member_from = 10; member_until = none }

abbrev tables : Db
tables = record {
  registrar_group = old ∷ certified ∷ [];
  registrar_group_map = early ∷ lasting ∷ [];
  next_group_id = 3;
  next_map_id = 3;
}

abbrev noon : Now
noon = record { today = 20; is_midnight = false }

no_name : (create_registrar_group [] tables).0 ≡ err empty_group_name
unfolding create_registrar_group
no_name = refl

-- The name of a cancelled group stays taken.
name_of_cancelled : (create_registrar_group (codes "old") tables).0 ≡ err group_exists
unfolding create_registrar_group
name_of_cancelled = refl

-- An update of a group that does not exist returns.
no_such_group : (update_registrar_group 9 (codes "new") tables).0 ≡ ok tt
unfolding update_registrar_group
no_such_group = refl

cancelled_before : (cancel_registrar_group 60 20 1 tables).0 ≡ err already_cancelled
unfolding cancel_registrar_group
cancelled_before = refl

has_member : (cancel_registrar_group 60 20 2 tables).0 ≡ err nonempty_group_delete
unfolding cancel_registrar_group
has_member = refl

has_no_member_yet : (cancel_registrar_group 60 0 2 tables).0 ≡ ok tt
unfolding cancel_registrar_group
has_no_member_yet = refl

-- The membership without an end is ended on day 5, before it begins, and the new one shares days with
-- the early one.
before_the_open_one :
    (create_registrar_group_membership 7 2 5 not_a_date tables).1.registrar_group_map
    ≡ early
      ∷ record lasting { member_until = some 5 }
      ∷ record {
        id = 3;
        registrar_id = 7;
        registrar_group_id = 2;
        member_from = 5;
        member_until = none;
      }
      ∷ []
unfolding create_registrar_group_membership
before_the_open_one = refl

backwards : (create_registrar_group_membership 7 2 5 (until 4) tables).0 ≡ err wrong_interval_order
unfolding create_registrar_group_membership
backwards = refl

into_early :
    (create_registrar_group_membership 7 2 5 not_a_date
      (record tables { registrar_group_map = early ∷ [] })).0
    ≡ err interval_intersection
unfolding create_registrar_group_membership
into_early = refl

ended_today :
    (end_registrar_group_membership noon 7 2 tables).1.registrar_group_map
    ≡ early ∷ record lasting { member_until = some 20 } ∷ []
unfolding end_registrar_group_membership
ended_today = refl

not_a_member : (end_registrar_group_membership noon 8 2 tables).0 ≡ err membership_not_found
unfolding end_registrar_group_membership
not_a_member = refl

tables-Distinct : Distinct tables
tables-Distinct = (
  ((((λ h. omega (arith, h)), (λ h. ground (arith, h))), tt), (tt, tt)),
  (ground arith, (ground arith, tt)),
)

abbrev calls : List Call
calls = create (codes "new") ∷ update 2 (codes "better") ∷ cancelled_on 60 0 3 ∷ []

run_groups-Distinct_example : Distinct (run calls tables)
run_groups-Distinct_example = run_groups-Distinct calls tables tables-Distinct

create_membership_iff_example :
    is_ok (create_registrar_group_membership 7 2 5 (until 12) tables) ≡ (
      not (is_wrong_order 5 (until 12))
      && (any (λ m. is_of 7 2 m && is_open m) tables.registrar_group_map
          || not (any (λ m. is_of 7 2 m && is_past 5 m) tables.registrar_group_map)))
create_membership_iff_example = create_membership_iff 7 2 5 (until 12) tables

create_twice-terminates_example :
    (let first = create_registrar_group_membership 8 2 15 (until 30) tables in
      let second = create_registrar_group_membership 8 2 30 pos_infinity first.1 in
      (is_ok first ≡ true)
      × (is_ok second ≡ true)
      × ((end_registrar_group_membership noon 8 2 second.1).0 ≡ err terminates))
create_twice-terminates_example =
    create_twice-terminates 8 2 15 30 30 tables noon refl (ground arith) (ground arith)
      (ground arith)
