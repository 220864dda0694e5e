-- ===== src/ObjectState/Create.antt =====
-- `CreateObjectStateRequestId::exec`
-- (src/libfred/object_state/create_object_state_request_id.cc).
pub mod Windows
pub mod Effect
pub mod Accept
use fred_libfred.Common.{
  ℕ, suc, ◌+◌, ◌≡◌, refl, List, [], ◌∷◌, ◌++◌, map, Text, length, ltb, leb, ◌==◌, any, filter,
  if◌then◌else◌, Bool, true, false, not, ◌&&◌, ◌||◌, Result, ok, err, guard, ◌>>=◌, ◌>>◌, Option,
  none, some,
}
use fred_libfred.ObjectState.{
  ObjectRow, RequestRow, Db, RequestError, out_of_turn, object_id_not_found,
  overlayed_time_intervals, malformed_query,
}
use fred_libfred.ObjectState.StateIds.{
  StatusList, StateIdMap, find_object, check_valid_status, get_state_id_map, ids,
}

-- The interval of a request: `none` at the left is the current time, at the right no end.
pub record Window : Type 0 where
  pub valid_from : Option ℕ
  pub valid_to : Option ℕ

unfoldable pub is_out_of_turn : ℕ → Option ℕ → Option ℕ → Bool
is_out_of_turn now from none = false
is_out_of_turn now (some from) (some to) = ltb to from
is_out_of_turn now none (some to) = ltb to now

abbrev pub start_of : ℕ → Window → ℕ
start_of now w = elim w.valid_from [ none ↦ now | some from ↦ from ]

-- `LEAST(canceled,valid_to)`, which passes over a NULL.
abbrev pub least : Option ℕ → Option ℕ → Option ℕ
least none b = b
least (some a) none = some a
least (some a) (some b) = some (if ltb b a then b else a)

-- `a < b`, `a <= b` of a query, where a NULL makes the comparison fail.
abbrev pub before : Option ℕ → ℕ → Bool
before none b = false
before (some a) b = ltb a b

abbrev pub starts_before : ℕ → Option ℕ → Bool
starts_before a none = false
starts_before a (some b) = ltb a b

abbrev pub ends_within : Option ℕ → Option ℕ → Bool
ends_within (some a) (some b) = leb a b
ends_within _ _ = false

abbrev pub is_null : Option ℕ → Bool
is_null none = true
is_null (some a) = false

-- The end of a stored request.
abbrev pub end_of : RequestRow → Option ℕ
end_of r = least r.canceled r.valid_to

-- The `WHERE` of the outer query, for the stored interval and the new one.
unfoldable pub conflicts : ℕ → Option ℕ → ℕ → Option ℕ → Bool
conflicts obj_valid_from obj_valid_to new_valid_from new_valid_to =
    before obj_valid_to obj_valid_from
    || (leb obj_valid_from new_valid_from
        && (starts_before new_valid_from obj_valid_to || is_null obj_valid_to))
    || ((starts_before obj_valid_from new_valid_to || is_null new_valid_to)
        && (ends_within new_valid_to obj_valid_to || is_null obj_valid_to))

-- `object_id=$1 AND state_id IN (…)`.
abbrev pub concerns : ℕ → List ℕ → RequestRow → Bool
concerns object_id state_ids r = r.object_id == object_id && any (λ i. i == r.state_id) state_ids

unfoldable pub conflicting : Db → ℕ → ℕ → List ℕ → Window → List RequestRow
conflicting db now object_id state_ids w =
    filter
      (λ r.
        concerns object_id state_ids r
        && conflicts r.valid_from (end_of r) (start_of now w) w.valid_to)
      db.object_state_request

-- One row that the query returned decides what is thrown.
abbrev pub conflict_error : RequestRow → RequestError
conflict_error r = if before (end_of r) r.valid_from then out_of_turn else overlayed_time_intervals

abbrev pub refuse : Option RequestRow → Result RequestError (Unit {0})
refuse none = ok tt
refuse (some r) = err (conflict_error r)

-- The rows of the `INSERT`, one for each state.
abbrev pub new_rows : ℕ → ℕ → ℕ → Window → List ℕ → List RequestRow
new_rows next now object_id w [] = []
new_rows next now object_id w (i ∷ is) =
    record {
      id = next;
      object_id = object_id;
      state_id = i;
      crdate = now;
      valid_from = start_of now w;
      valid_to = w.valid_to;
      canceled = none;
    }
    ∷ new_rows (suc next) now object_id w is

unfoldable pub insert_rows : Db → ℕ → ℕ → Window → List ℕ → Db
insert_rows db now object_id w state_ids = record db {
  object_state_request =
      db.object_state_request ++ new_rows db.next_request_id now object_id w state_ids;
  next_request_id = db.next_request_id + length state_ids;
}

abbrev pub object_or_throw : ℕ → Option ObjectRow → Result RequestError ObjectRow
object_or_throw id none = err (object_id_not_found id)
object_or_throw id (some o) = ok o

abbrev pub has_ids : List ℕ → Bool
has_ids [] = false
has_ids (i ∷ is) = true

-- `limit_1` is the row that the database chooses for `LIMIT 1`. The result is the name of the
-- object and the id of the first new row, with the new tables.
module _ (limit_1 : List RequestRow → Option RequestRow) (db : Db) (now object_id : ℕ) where
  abbrev pub Outcome : Type 0
  Outcome = Result RequestError ((Text × ℕ) × Db)

  -- The last part of `exec`, from the list of the states' ids on.
  unfoldable pub store_requests : Window → Text → List ℕ → Outcome
  store_requests w handle_name state_ids = do
    guard (has_ids state_ids) malformed_query
    refuse (limit_1 (conflicting db now object_id state_ids w))
    ok ((handle_name, db.next_request_id), insert_rows db now object_id w state_ids)

  -- Once the object is there.
  unfoldable pub create_for : StatusList → Window → ObjectRow → Outcome
  create_for status_list w object = do
    check_valid_status db object status_list
    state_id_map ← get_state_id_map db status_list object.type
    store_requests w object.name (ids state_id_map)

  unfoldable pub create_object_state_request_id : StatusList → Window → Outcome
  create_object_state_request_id status_list w = do
    guard (not (is_out_of_turn now w.valid_from w.valid_to)) out_of_turn
    object ← object_or_throw object_id (find_object object_id db.object_registry)
    create_for status_list w object
