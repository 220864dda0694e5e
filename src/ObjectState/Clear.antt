-- ===== src/ObjectState/Clear.antt =====
-- `ClearObjectStateRequestId::exec` (src/libfred/object_state/clear_object_state_request_id.cc) and
-- `ClearAdminObjectStateRequestId::exec`
-- (src/libfred/object_state/clear_admin_object_state_request_id.cc).
pub mod Effect
mod Tests
use fred_libfred.Common.{
  ℕ, ◌≡◌, List, [], ◌∷◌, map, Text, codes, text_eq, take, ltb, leb, ◌==◌, any, filter,
  if◌then◌else◌, Bool, true, false, not, ◌&&◌, ◌||◌, Result, ok, err, Option, none, some,
}
use fred_libfred.ObjectState.{StateRow, RequestRow, Db}
use fred_libfred.ObjectState.Create.{starts_before, is_null}

-- A row of `object_state_request_reason`.
pub record ReasonRow : Type 0 where
  pub object_state_request_id : ℕ
  pub reason_creation : Option Text
  pub reason_cancellation : Option Text

pub data ClearError : Type 0 where
  server_blocked_absent : ℕ → ClearError

-- `LIKE 'server%'`.
abbrev pub is_server_name : Text → Bool
is_server_name name = text_eq (take 6 name) (codes "server")

module _ (db : Db) (now object_id : ℕ) where
  -- The subquery on the states.
  unfoldable pub is_server_state : ℕ → Bool
  is_server_state state_id =
      any (λ s. s.id == state_id && s.manual && is_server_name s.name) db.enum_object_states

  -- The `WHERE` of the update.
  unfoldable pub is_cleared : RequestRow → Bool
  is_cleared r =
      is_null r.canceled
      && r.object_id == object_id
      && leb r.valid_from now
      && (is_null r.valid_to || starts_before now r.valid_to)
      && is_server_state r.state_id

  abbrev pub clear_row : RequestRow → RequestRow
  clear_row r = if is_cleared r then record r { canceled = some now } else r

  abbrev pub ids_of : List RequestRow → List ℕ
  ids_of rows = map (λ r. r.id) rows

  -- The ids that the update returns, and the tables after it.
  unfoldable pub clear_object_state_request_id : List ℕ × Db
  clear_object_state_request_id = (
    ids_of (filter is_cleared db.object_state_request),
    record db { object_state_request = map clear_row db.object_state_request },
  )

  -- The requests among `requests` for the state serverBlocked.
  abbrev pub is_server_blocked : RequestRow → Bool
  is_server_blocked r =
      any (λ s. s.id == r.state_id && text_eq s.name (codes "serverBlocked")) db.enum_object_states

  unfoldable pub blocked_requests : List ℕ → List RequestRow → List ℕ
  blocked_requests requests rows =
      ids_of (filter (λ r. any (λ i. i == r.id) requests && is_server_blocked r) rows)

  abbrev pub set_reason : Option Text → ℕ → ReasonRow → ReasonRow
  set_reason reason osr_id row =
      if row.object_state_request_id == osr_id
      then record row { reason_cancellation = reason }
      else row

  -- What follows the query with `LIMIT 1`.
  unfoldable pub store_reason :
      Option Text → List ReasonRow → Option ℕ → Result ClearError (List ReasonRow)
  store_reason reason reasons none = err (server_blocked_absent object_id)
  store_reason reason reasons (some osr_id) = ok (map (set_reason reason osr_id) reasons)

  -- `limit_1` is the row that the database chooses for `LIMIT 1`. The result is the table of reasons;
  -- an exception comes after the update of the requests, and it is for the caller to roll back.
  unfoldable pub clear_admin_object_state_request_id :
      (List ℕ → Option ℕ) → Option Text → List ReasonRow → Result ClearError (List ReasonRow) × Db
  clear_admin_object_state_request_id limit_1 reason reasons =
      let (requests, after) = clear_object_state_request_id in
      (
        elim requests [
          | [] ↦ err (server_blocked_absent object_id)
          | i ∷ is ↦
              store_reason reason reasons
                (limit_1 (blocked_requests (i ∷ is) after.object_state_request))
        ],
        after,
      )
