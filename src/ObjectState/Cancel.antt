-- ===== src/ObjectState/Cancel.antt =====
-- `CancelObjectStateRequestId::exec`
-- (src/libfred/object_state/cancel_object_state_request_id.cc).
pub mod Effect
use fred_libfred.Common.{
  ℕ, suc, ◌≡◌, refl, List, [], ◌∷◌, ◌++◌, map, Text, length, ltb, leb, ◌==◌, any, all, filter,
  if◌then◌else◌, Bool, true, false, not, ◌&&◌, ◌||◌, Result, ok, err, guard, ◌>>=◌, ◌>>◌, Option,
  none, some,
}
use fred_libfred.ObjectState.{
  ObjectRow, RequestRow, Db, RequestError, state_not_found, malformed_query,
}
use fred_libfred.ObjectState.StateIds.{StatusList, StateIdMap, find_object, get_state_id_map, ids}
use fred_libfred.ObjectState.Create.{starts_before, is_null, concerns, has_ids, object_or_throw}

-- The `WHERE` of the update.
unfoldable pub is_active : ℕ → ℕ → List ℕ → RequestRow → Bool
is_active now object_id state_ids r =
    is_null r.canceled
    && leb r.valid_from now
    && (is_null r.valid_to || starts_before now r.valid_to)
    && concerns object_id state_ids r

abbrev pub cancel_row : ℕ → ℕ → List ℕ → RequestRow → RequestRow
cancel_row now object_id state_ids r =
    if is_active now object_id state_ids r then record r { canceled = some now } else r

unfoldable pub cancel_rows : ℕ → ℕ → List ℕ → List RequestRow → List RequestRow
cancel_rows now object_id state_ids = map (cancel_row now object_id state_ids)

-- `RETURNING id,state_id`: the states of the rows that the update has changed.
unfoldable pub cancelled_states : ℕ → ℕ → List ℕ → List RequestRow → List ℕ
cancelled_states now object_id state_ids rows =
    map (λ r. r.state_id) (filter (is_active now object_id state_ids) rows)

abbrev pub subset : List ℕ → List ℕ → Bool
subset xs ys = all (λ x. any (λ y. y == x) ys) xs

-- `result_state_id == required_state_id`, two `std::set`s.
abbrev pub same_set : List ℕ → List ℕ → Bool
same_set xs ys = subset xs ys && subset ys xs

-- `erase` of the first entry with the state, if there is one.
abbrev pub erase_state : ℕ → StateIdMap → StateIdMap
erase_state i [] = []
erase_state i ((n, j) ∷ m) = if j == i then m else (n, j) ∷ erase_state i m

abbrev pub erase_states : List ℕ → StateIdMap → StateIdMap
erase_states [] m = m
erase_states (i ∷ is) m = erase_states is (erase_state i m)

-- The result, with the tables after it. An exception that comes after the update leaves the tables
-- changed: it is for the caller to roll back.
module _ (db : Db) (now object_id : ℕ) where
  abbrev pub updated : List ℕ → Db
  updated state_ids = record db {
    object_state_request = cancel_rows now object_id state_ids db.object_state_request;
  }

  -- What is returned or thrown once the update has been made.
  unfoldable pub verdict : StateIdMap → Result RequestError (Unit {0})
  verdict m =
      let changed = cancelled_states now object_id (ids m) db.object_state_request in
      if leb (length m) (length changed) && same_set changed (ids m)
      then ok tt
      else err (state_not_found (map (λ entry. entry.0) (erase_states changed m)))

  abbrev pub Outcome : Type 0
  Outcome = Result RequestError (Unit {0}) × Db

  unfoldable pub cancel_states : Result RequestError StateIdMap → Outcome
  cancel_states (err e) = (err e, db)
  cancel_states (ok m) =
      if has_ids (ids m) then (verdict m, updated (ids m)) else (err malformed_query, db)

  unfoldable pub cancel_for : StatusList → Result RequestError ObjectRow → Outcome
  cancel_for status_list (err e) = (err e, db)
  cancel_for status_list (ok object) = cancel_states (get_state_id_map db status_list object.type)

  unfoldable pub cancel_object_state_request_id : StatusList → Outcome
  cancel_object_state_request_id status_list =
      cancel_for status_list (object_or_throw object_id (find_object object_id db.object_registry))
