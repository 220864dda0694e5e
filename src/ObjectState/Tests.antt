-- ===== src/ObjectState/Tests.antt =====
-- Creating and cancelling requests at concrete tables.
use fred_libfred.Common.{
  ◌≡◌, refl, List, [], ◌∷◌, codes, true, false, ok, err, Option, none, some, arith, All, ◌⊎◌, ◌↔◌,
}
use fred_libfred.ObjectState.{ObjectRow, RequestRow, Db, overlayed_time_intervals}
use fred_libfred.ObjectState.StateIds.{
  StatusList, StateIdMap, find_object, valid_states, check_valid_status, get_result,
  get_state_id_map, ids,
}
use fred_libfred.ObjectState.Create.{
  Window, is_out_of_turn, end_of, before, conflicts, conflicting, insert_rows, create_for,
  store_requests, create_object_state_request_id,
}
use fred_libfred.ObjectState.Create.Windows.{Overlap, StrictlyInside, conflicts_iff}
use fred_libfred.ObjectState.Create.Accept.{
  IsLimitOne, IsReady, Fits, create-Fits, create_accepts_covering,
}
use fred_libfred.ObjectState.Cancel.{
  is_active, cancel_row, cancelled_states, verdict, cancel_states, cancel_for,
  cancel_object_state_request_id, updated,
}
use fred_libfred.ObjectState.Cancel.Effect.{Cancelled, conflicts-cancel_row, cancel-Cancelled}

abbrev first_row : List RequestRow → Option RequestRow
first_row [] = none
first_row (r ∷ rs) = some r

to_nil : (rows : List RequestRow) → first_row rows ≡ none → rows ≡ []
to_nil [] h = refl
to_nil (r ∷ rs) h = cc

first_row-IsLimitOne : IsLimitOne first_row
first_row-IsLimitOne = record { of_nil = refl; to_nil = to_nil }

abbrev blocked : RequestRow
blocked = record {
  id = 1;
  object_id = 5;
  state_id = 4;
  crdate = 10;
  valid_from = 30;
  valid_to = some 50;
  canceled = none;
}

abbrev object_cz : ObjectRow
object_cz = record { id = 5; type = 3; name = codes "nic.cz" }

abbrev db : Db
db = record {
  object_registry = object_cz ∷ [];
  enum_object_states =
      record { id = 4; name = codes "serverHold"; types = 3 ∷ []; manual = true } ∷ [];
  object_state_request = blocked ∷ [];
  next_request_id = 2;
}

abbrev hold : StatusList
hold = codes "serverHold" ∷ []

abbrev hold_map : StateIdMap
hold_map = (codes "serverHold", 4) ∷ []

-- From 60 on, with no end.
abbrev after_it : Window
after_it = record { valid_from = some 60; valid_to = none }

-- From 20 to 70: the stored interval from 30 to 50 lies inside.
abbrev around_it : Window
around_it = record { valid_from = some 20; valid_to = some 70 }

made_after :
    create_object_state_request_id first_row db 12 5 hold after_it
    ≡ ok ((codes "nic.cz", 2), insert_rows db 12 5 after_it (4 ∷ []))
unfolding create_object_state_request_id create_for store_requests is_out_of_turn find_object
    check_valid_status valid_states get_state_id_map get_result conflicting conflicts
made_after = refl

refused_within :
    create_object_state_request_id first_row db 12 5 hold
      (record { valid_from = some 40; valid_to = none })
    ≡ err overlayed_time_intervals
unfolding create_object_state_request_id create_for store_requests is_out_of_turn find_object
    check_valid_status valid_states get_state_id_map get_result conflicting conflicts
refused_within = refl

create-Fits_example :
    (m : StateIdMap) × (insert_rows db 12 5 after_it (4 ∷ [])
      ≡ insert_rows db 12 5 after_it (ids m))
    × All
        (Fits first_row first_row-IsLimitOne db 12 5 hold after_it (ids m))
        db.object_state_request
create-Fits_example = create-Fits first_row first_row-IsLimitOne db 12 5 hold after_it tt made_after

around-IsReady : IsReady first_row first_row-IsLimitOne db 12 5 hold around_it object_cz hold_map
unfolding is_out_of_turn find_object check_valid_status valid_states get_state_id_map get_result
around-IsReady = record {
  in_turn = refl;
  found = refl;
  statuses = refl;
  known = refl;
  some_state = refl;
}

create_accepts_covering_example :
    create_object_state_request_id first_row db 12 5 hold around_it
    ≡ ok ((codes "nic.cz", 2), insert_rows db 12 5 around_it (4 ∷ []))
create_accepts_covering_example =
    create_accepts_covering first_row first_row-IsLimitOne db 12 5 hold around_it object_cz hold_map
      around-IsReady (omega arith) ((λ _. (refl, (omega arith, omega arith))), tt)

conflicts_iff_example : (conflicts 30 (some 50) 40 none ≡ true) ↔ (
    (before (some 50) 30 ≡ true)
    ⊎ (Overlap 30 (some 50) 40 none × ¬ StrictlyInside 30 (some 50) 40 none))
conflicts_iff_example = conflicts_iff 30 (some 50) 40 none tt

cancelled_at_40 : cancel_object_state_request_id db 40 5 hold ≡ (ok tt, updated db 40 5 (4 ∷ []))
unfolding cancel_object_state_request_id cancel_for cancel_states verdict cancelled_states is_active
    find_object get_state_id_map get_result
cancelled_at_40 = refl

cancel-Cancelled_example : Cancelled db 40 5 hold (updated db 40 5 (4 ∷ []))
cancel-Cancelled_example = cancel-Cancelled db 40 5 hold cancelled_at_40

active_at_40 : is_active 40 5 (4 ∷ []) blocked ≡ true
unfolding is_active
active_at_40 = refl

conflicts-cancel_row_example :
    conflicts blocked.valid_from (end_of (cancel_row 40 5 (4 ∷ []) blocked)) 40 none ≡ false
conflicts-cancel_row_example = conflicts-cancel_row 40 5 (4 ∷ []) blocked none active_at_40 tt
