-- ===== src/Registrar/Group.antt =====
-- Groups of registrars (libfred/registrar/group): the tables, and the operations on the groups
-- themselves (create_registrar_group.cc, update_registrar_group.cc, cancel_registrar_group.cc).
pub mod Membership
pub mod Distinct
pub mod Ended
mod Tests
use fred_libfred.Common.Operations
use fred_libfred.Common.{
  ℕ, suc, List, [], ◌∷◌, ◌++◌, map, Text, text_eq, leb, ◌==◌, any, not, if◌then◌else◌, Bool, true,
  false, ◌&&◌, Option, none, some, Result, ok, err,
}

pub record GroupRow : Type 0 where
  pub id : ℕ
  pub short_name : Text
  pub cancelled : Option ℕ

-- A row of `registrar_group_map`; days are numbered.
pub record MembershipRow : Type 0 where
  pub id : ℕ
  pub registrar_id : ℕ
  pub registrar_group_id : ℕ
  pub member_from : ℕ
  pub member_until : Option ℕ

-- `next_group_id` and `next_map_id` are the sequences behind the ids.
pub record Db : Type 0 where
  pub registrar_group : List GroupRow
  pub registrar_group_map : List MembershipRow
  pub next_group_id : ℕ
  pub next_map_id : ℕ

-- `terminates` is the end of the program: a `throw` without an operand, with no exception at hand.
pub data GroupError : Type 0 where
  empty_group_name group_exists already_cancelled nonempty_group_delete : GroupError
  wrong_interval_order interval_intersection membership_not_found : GroupError
  terminates : GroupError

abbrev pub Operation : Type 0 → Type 0
Operation = Operations.Operation GroupError Db

abbrev pub has_name : Text → GroupRow → Bool
has_name name g = text_eq g.short_name name

abbrev pub with_group : Text → Db → Db
with_group name db = record db {
  registrar_group =
      db.registrar_group
      ++ record { id = db.next_group_id; short_name = name; cancelled = none } ∷ [];
  next_group_id = suc db.next_group_id;
}

unfoldable pub create_registrar_group : Text → Operation ℕ
create_registrar_group [] db = (err empty_group_name, db)
create_registrar_group (c ∷ s) db =
    if any (has_name (c ∷ s)) db.registrar_group
    then (err group_exists, db)
    else (ok db.next_group_id, with_group (c ∷ s) db)

abbrev pub rename : ℕ → Text → GroupRow → GroupRow
rename id name g = if g.id == id then record g { short_name = name } else g

abbrev pub renamed : ℕ → Text → Db → Db
renamed id name db = record db { registrar_group = map (rename id name) db.registrar_group }

-- The members are `group_id_` and `group_name_`.
unfoldable pub update_registrar_group : ℕ → Text → Operation (Unit {0})
update_registrar_group id [] db = (err empty_group_name, db)
update_registrar_group id (c ∷ s) db =
    if any (has_name (c ∷ s)) db.registrar_group
    then (err group_exists, db)
    else (ok tt, renamed id (c ∷ s) db)

abbrev pub is_set : Option ℕ → Bool
is_set none = false
is_set (some t) = true

-- A membership on the current day.
abbrev pub is_current : ℕ → ℕ → Option ℕ → Bool
is_current today from none = leb from today
is_current today from (some until) = leb from today && (leb today until && not (from == until))

abbrev pub cancel : ℕ → ℕ → GroupRow → GroupRow
cancel now id g = if g.id == id then record g { cancelled = some now } else g

unfoldable pub cancel_registrar_group : ℕ → ℕ → ℕ → Operation (Unit {0})
cancel_registrar_group now today id db =
    if any (λ g. g.id == id && is_set g.cancelled) db.registrar_group
    then (err already_cancelled, db)
    else if any (λ m. m.registrar_group_id == id && is_current today m.member_from m.member_until)
        db.registrar_group_map
    then (err nonempty_group_delete, db)
    else (ok tt, record db { registrar_group = map (cancel now id) db.registrar_group })
