-- ===== src/Registrar/Group/Membership.antt =====
-- `CreateRegistrarGroupMembership` and `EndRegistrarGroupMembership` (libfred/registrar/group/membership).
use fred_libfred.Common.{
  ℕ, suc, List, [], ◌∷◌, ◌++◌, map, ltb, ◌==◌, filter, if◌then◌else◌, Bool, true, false, ◌&&◌, ◌||◌,
  Option, none, some, ok, err,
}
use fred_libfred.Registrar.Group.{
  MembershipRow, Db, Operation, wrong_interval_order, interval_intersection, membership_not_found,
  terminates,
}

-- `Database::Date` for the end.
pub data Until : Type 0 where
  not_a_date pos_infinity : Until
  until : ℕ → Until

-- The first condition of the creation.
abbrev pub is_wrong_order : ℕ → Until → Bool
is_wrong_order from not_a_date = false
is_wrong_order from pos_infinity = false
is_wrong_order from (until d) = ltb d from

abbrev pub end_or_null : Until → Option ℕ
end_or_null not_a_date = none
end_or_null pos_infinity = none
end_or_null (until d) = some d

abbrev pub is_of : ℕ → ℕ → MembershipRow → Bool
is_of registrar_id group_id m = m.registrar_id == registrar_id && m.registrar_group_id == group_id

-- `a` comes before `b` in the order of `member_until DESC`, where NULL is first.
abbrev pub ends_after : Option ℕ → Option ℕ → Bool
ends_after a none = false
ends_after none (some d) = true
ends_after (some c) (some d) = ltb d c

abbrev pub later_end : MembershipRow → Option MembershipRow → MembershipRow
later_end m none = m
later_end m (some n) = if ends_after n.member_until m.member_until then n else m

-- `ORDER BY member_until DESC LIMIT 1`; of rows with one end PostgreSQL may take any, here it is the
-- first.
unfoldable pub last_membership : List MembershipRow → Option MembershipRow
last_membership [] = none
last_membership (m ∷ ms) = some (later_end m (last_membership ms))

abbrev pub end_at : ℕ → ℕ → MembershipRow → MembershipRow
end_at id day m = if m.id == id then record m { member_until = some day } else m

abbrev pub ended : ℕ → ℕ → Db → Db
ended id day db = record db { registrar_group_map = map (end_at id day) db.registrar_group_map }

-- The new row.
abbrev pub membership : ℕ → ℕ → ℕ → Until → ℕ → MembershipRow
membership registrar_id group_id from to id = record {
  id = id;
  registrar_id = registrar_id;
  registrar_group_id = group_id;
  member_from = from;
  member_until = end_or_null to;
}

abbrev pub with_membership : ℕ → ℕ → ℕ → Until → Operation ℕ
with_membership registrar_id group_id from to db = (
  ok db.next_map_id,
  record db {
    registrar_group_map =
        db.registrar_group_map ++ membership registrar_id group_id from to db.next_map_id ∷ [];
    next_map_id = suc db.next_map_id;
  },
)

-- What is done about the last membership, then the insertion.
abbrev pub after_last : ℕ → ℕ → ℕ → Until → ℕ → Option ℕ → Operation ℕ
after_last registrar_id group_id from to id none db =
    with_membership registrar_id group_id from to (ended id from db)
after_last registrar_id group_id from to id (some d) db =
    if ltb from d
    then (err interval_intersection, db)
    else with_membership registrar_id group_id from to db

abbrev pub after_found : ℕ → ℕ → ℕ → Until → Option MembershipRow → Operation ℕ
after_found registrar_id group_id from to none db = with_membership registrar_id group_id from to db
after_found registrar_id group_id from to (some m) db =
    after_last registrar_id group_id from to m.id m.member_until db

unfoldable pub create_registrar_group_membership : ℕ → ℕ → ℕ → Until → Operation ℕ
unfolding last_membership
create_registrar_group_membership registrar_id group_id from to db =
    if is_wrong_order from to
    then (err wrong_interval_order, db)
    else after_found registrar_id group_id from to
        (last_membership (filter (is_of registrar_id group_id) db.registrar_group_map)) db

-- `NOW()`: the day, and whether it has just begun. A day as a time is its midnight.
pub record Now : Type 0 where
  pub today : ℕ
  pub is_midnight : Bool

-- `member_until IS NULL OR member_until >= NOW()`.
abbrev pub lasts : Now → Option ℕ → Bool
lasts now none = true
lasts now (some d) = ltb now.today d || d == now.today && now.is_midnight

abbrev pub end_found : ℕ → List MembershipRow → Operation (Unit {0})
end_found today [] db = (err membership_not_found, db)
end_found today (m ∷ []) db = (ok tt, ended m.id today db)
end_found today (m ∷ n ∷ ms) db = (err terminates, db)

unfoldable pub end_registrar_group_membership : Now → ℕ → ℕ → Operation (Unit {0})
end_registrar_group_membership now registrar_id group_id db =
    end_found now.today
      (filter (λ m. is_of registrar_id group_id m && lasts now m.member_until)
        db.registrar_group_map)
      db
