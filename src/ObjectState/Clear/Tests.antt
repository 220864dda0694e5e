-- ===== src/ObjectState/Clear/Tests.antt =====
-- Runs of clearing.
use fred_libfred.Common.{
  ℕ, ◌≡◌, ◌↔◌, refl, List, [], ◌∷◌, codes, any, ◌==◌, true, false, ok, err, Option, none, some,
}
use fred_libfred.ObjectState.{RequestRow, Db}
use fred_libfred.ObjectState.Clear.{
  ReasonRow, server_blocked_absent, is_server_state, is_cleared, clear_object_state_request_id,
  blocked_requests, store_reason, clear_admin_object_state_request_id,
}
use fred_libfred.ObjectState.Clear.Effect.{IsServerRequest, clear-Cleared}
use fred_libfred.ObjectState.Changes.{Some, Changes}

abbrev request : RequestRow
request = record {
  id = 1;
  object_id = 5;
  state_id = 4;
  crdate = 10;
  valid_from = 30;
  valid_to = none;
  canceled = none;
}

abbrev db : Db
db = record {
  object_registry = record { id = 5; type = 3; name = codes "nic.cz" } ∷ [];
  enum_object_states =
      record { id = 4; name = codes "serverBlocked"; types = 3 ∷ []; manual = true }
      ∷ record { id = 6; name = codes "expired"; types = 3 ∷ []; manual = false }
      ∷ [];
  object_state_request = request ∷ record request { id = 2; state_id = 6 } ∷ [];
  next_request_id = 3;
}

abbrev first : List ℕ → Option ℕ
first [] = none
first (i ∷ is) = some i

abbrev reasons : List ReasonRow
reasons =
    record { object_state_request_id = 1; reason_creation = none; reason_cancellation = none } ∷ []

cleared_one : (clear_object_state_request_id db 40 5).0 ≡ 1 ∷ []
unfolding clear_object_state_request_id is_cleared is_server_state
cleared_one = refl

reason_stored :
    (clear_admin_object_state_request_id db 40 5 first (some (codes "x")) reasons).0
    ≡ ok (
        record {
          object_state_request_id = 1;
          reason_creation = none;
          reason_cancellation = some (codes "x");
        }
        ∷ [])
unfolding clear_admin_object_state_request_id clear_object_state_request_id is_cleared
    is_server_state blocked_requests store_reason
reason_stored = refl

nothing_active :
    (clear_admin_object_state_request_id db 20 5 first none reasons).0
    ≡ err (server_blocked_absent 5)
unfolding clear_admin_object_state_request_id clear_object_state_request_id is_cleared
    is_server_state
nothing_active = refl

clear-Cleared_example :
    (let (returned_ids, after) = clear_object_state_request_id db 40 5 in
      (after ≡ record db { object_state_request = after.object_state_request })
      × Changes (IsServerRequest db 40 5) 40 db.object_state_request after.object_state_request
      × ((i : ℕ)
          → (any (λ j. j == i) returned_ids ≡ true)
            ↔ Some (λ r. IsServerRequest db 40 5 r × (r.id ≡ i)) db.object_state_request))
clear-Cleared_example = clear-Cleared db 40 5
