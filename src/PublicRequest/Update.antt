-- ===== src/PublicRequest/Update.antt =====
-- `UpdatePublicRequest::update` (libfred/public_request/update_public_request.cc): the update of the row,
-- and then of the requests that it cancels.
mod Columns
unfoldable pub use Columns.*
use fred_libfred.Common.{
  ℕ, zero, suc, List, [], ◌∷◌, ◌++◌, map, Text, codes, text_eq, ◌==◌, any, filter, if◌then◌else◌,
  Bool, true, false, not, ◌&&◌, ◌||◌, Option, none, some, ok, err,
}
use fred_libfred.Common.Operations.{◌>>=◌, ◌>>◌, return, throw, throw_if}
use fred_libfred.PublicRequest.{
  Status, opened, resolved, invalidated, is_opened, same_status, OnStatusAction, TypeIface,
  RequestRow, SendStatus, ready, send_failed, no_processing, other_send_status, MessageRow, Db,
  BadParams, bad_params, public_request_doesnt_exist, object_doesnt_exist, type_failed,
  multiple_assignments, out_of_fuel, Operation,
}

module _ (types : TypeIface) where
  open types use {
    Iface, get_public_request_type, get_public_request_types_to_cancel_on_update,
    get_on_status_action,
  }

  -- `invalidate_public_request`, for the requests to cancel.
  abbrev pub invalidation : UpdatePublicRequest → Text → UpdatePublicRequest
  invalidation u type = record {
    status = some invalidated;
    reason = some (some (codes "due to answering public request of " ++ type ++ codes " type"));
    email_to_answer = none;
    answer_email_id = none;
    registrar_id = u.registrar_id;
    on_status_action = none;
  }

  -- The opened requests of the object and the type.
  abbrev pub is_opened_of : ℕ → Text → RequestRow → Bool
  is_opened_of object_id type r =
      r.object_id == object_id && (text_eq r.type type && is_opened r.status)

  unfoldable pub opened_requests : ℕ → Text → List RequestRow → List ℕ
  opened_requests object_id type rows = map (λ r. r.id) (filter (is_opened_of object_id type) rows)

  -- The loops over the requests to cancel; `cancel` is the call for one of them.
  abbrev pub Cancel : Type 0
  Cancel = Iface → ℕ → Operation (Unit {0})

  unfoldable pub cancel_requests : Cancel → Iface → List ℕ → Operation (Unit {0})
  cancel_requests cancel type [] = return tt
  cancel_requests cancel type (i ∷ is) = cancel type i >> cancel_requests cancel type is

  unfoldable pub cancel_types : Cancel → ℕ → List Iface → Operation (Unit {0})
  unfolding cancel_requests opened_requests
  cancel_types cancel object_id [] db = (ok tt, db)
  cancel_types cancel object_id (t ∷ ts) db =
      let found = opened_requests object_id (get_public_request_type t) db.public_request in
      let run : Operation (Unit {0}) =
        cancel_requests cancel t found >> cancel_types cancel object_id ts in
      run db

  -- `PublicRequestsOfObjectLockGuardByObjectId`
  -- (libfred/public_request/public_request_object_lock_guard.cc).
  unfoldable pub lock_object : ℕ → Operation (Unit {0})
  lock_object object_id db =
      throw_if (not (any (λ o. o == object_id) db.object)) (object_doesnt_exist object_id) db

  -- `PublicRequestLockGuardById` (libfred/public_request/public_request_lock_guard.cc).
  unfoldable pub lock_request : ℕ → Operation (Unit {0})
  lock_request id db =
      throw_if (not (any (λ r. r.id == id) db.public_request)) (public_request_doesnt_exist id) db

  -- What follows the update of the row, which was `r` before.
  unfoldable pub cancel_others : Cancel → ℕ → Option (List Iface) → Operation (Unit {0})
  unfolding lock_object cancel_types
  cancel_others cancel object_id none = throw type_failed
  cancel_others cancel object_id (some []) = return tt
  cancel_others cancel object_id (some (t ∷ ts)) =
      lock_object object_id >> cancel_types cancel object_id (t ∷ ts)

  unfoldable pub after_update : Cancel → Iface → Option Status → RequestRow → Operation (Unit {0})
  unfolding cancel_others
  after_update cancel type none r = return tt
  after_update cancel type (some s) r =
      if same_status s r.status
      then return tt
      else cancel_others cancel r.object_id
          (get_public_request_types_to_cancel_on_update type r.status s)

  abbrev pub result_of : RequestRow → UpdateResult
  result_of r = record {
    affected_requests = r.id ∷ [];
    public_request_type = r.type;
    object_id = r.object_id;
  }

  -- The letters stop before the arguments have been checked.
  unfoldable pub stop_letters : ℕ → Option Status → ℕ → Db → Db
  unfolding stop_letter_sending
  stop_letters now none id db = db
  stop_letters now (some opened) id db = db
  stop_letters now (some resolved) id db = db
  stop_letters now (some invalidated) id db = stop_letter_sending now id db

  -- The call of `invalidate_public_request.exec`, whose result is not used; `exec` is that of an update
  -- of one request.
  unfoldable pub cancel_by :
      (Iface → UpdatePublicRequest → ℕ → Operation UpdateResult) → UpdatePublicRequest → Cancel
  unfolding lock_request
  cancel_by exec u type id = lock_request id >> (exec type u id >>= λ result. return tt)

  module _ (now : ℕ) (log_request_id : Option ℕ) where
    unfoldable pub update_found :
        (UpdatePublicRequest → Cancel)
        → Iface
        → UpdatePublicRequest
        → ℕ
        → Option RequestRow
        → Operation UpdateResult
    unfolding updated_requests after_update
    update_found cancel type u id none db = (err (public_request_doesnt_exist id), db)
    update_found cancel type u id (some r) db =
        let run : Operation UpdateResult = do
          after_update (cancel (invalidation u r.type)) type u.status r
          return (result_of r)
        in run (updated_requests types now id type u log_request_id db)

    unfoldable pub update_with :
        (UpdatePublicRequest → Cancel) → Iface → UpdatePublicRequest → ℕ → Operation UpdateResult
    unfolding stop_letters check_params assigns_twice update_found
    update_with cancel type u id db =
        let stopped = stop_letters now u.status id db in
        let bad = check_params u id log_request_id stopped in
        if throw_me bad
        then (err (bad_params bad), stopped)
        else if assigns_twice u log_request_id
        then (err multiple_assignments, stopped)
        else update_found cancel type u id (first_row id stopped.public_request) stopped

    -- `update`, with as much nesting as there is fuel.
    unfoldable pub update : ℕ → Iface → UpdatePublicRequest → ℕ → Operation UpdateResult
    unfolding cancel_by update_with
    update zero type u id db = (err out_of_fuel, db)
    update (suc fuel) type u id db = update_with (cancel_by (update fuel)) type u id db
