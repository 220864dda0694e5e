-- ===== src/PublicRequest/Tests.antt =====
-- Updates of requests on concrete tables.
use fred_libfred.Common.{
  ◌≡◌, ◌≢◌, refl, List, [], ◌∷◌, Text, All, inl, any, true, false, Option, none, some, ok, err,
  arith,
}
use fred_libfred.PublicRequest.{
  Status, opened, resolved, invalidated, processed, scheduled, TypeIface, RequestRow, ready,
  no_processing, Db, out_of_fuel, bad_params,
}
use fred_libfred.PublicRequest.Update.{
  UpdatePublicRequest, UpdateResult, update, is_opened_of, result_of,
}
use fred_libfred.PublicRequest.Later.{AllLater, update-AllLater}
use fred_libfred.PublicRequest.Terminates.{update_terminates}
use fred_libfred.PublicRequest.UpdateAll.{update_all, is_asked}
use fred_libfred.PublicRequest.Unresolved.{Among, IsLimitOne}
use fred_libfred.PublicRequest.Loop.{Left, update_all-Left}
use fred_libfred.PublicRequest.Endless.{update_all_never}
use fred_libfred.PublicRequest.Closed.{Closed}
use fred_libfred.PublicRequest.Cancels.{IsOneOf, update-NoneOpened}

-- Two types: the resolution of a request of the first cancels the requests of both.
pub data Kind : Type 0 where
  authinfo block : Kind

abbrev pub kind_name : Kind → Text
kind_name authinfo = 1 ∷ []
kind_name block = 2 ∷ []

abbrev pub to_cancel : Kind → Status → Status → Option (List Kind)
to_cancel authinfo old resolved = some (authinfo ∷ block ∷ [])
to_cancel authinfo old opened = some []
to_cancel authinfo old invalidated = some []
to_cancel block old new = some []

abbrev pub kinds : TypeIface
kinds = record {
  Iface = Kind;
  get_public_request_type = kind_name;
  get_public_request_types_to_cancel_on_create = λ k. some (k ∷ []);
  get_public_request_types_to_cancel_on_update = to_cancel;
  get_on_status_action = λ k s. processed;
}

abbrev first : RequestRow
first = record {
  id = 1;
  type = 1 ∷ [];
  object_id = 9;
  status = opened;
  resolve_time = none;
  reason = none;
  email_to_answer = none;
  answer_email_id = none;
  registrar_id = none;
  create_request_id = none;
  resolve_request_id = none;
  on_status_action = scheduled;
}

abbrev second : RequestRow
second = record first { id = 2; type = 2 ∷ [] }

abbrev third : RequestRow
third = record first { id = 3; object_id = 8 }

abbrev pub tables : Db
tables = record {
  object = 8 ∷ 9 ∷ [];
  registrar = [];
  mail_archive = [];
  enum_public_request_type = (1 ∷ []) ∷ (2 ∷ []) ∷ [];
  public_request = first ∷ second ∷ third ∷ [];
  message_archive = record { id = 1; public_request_id = 2; status = ready; moddate = 0 } ∷ [];
  next_id = 4;
}

abbrev nothing_set : UpdatePublicRequest
nothing_set = record {
  status = none;
  reason = none;
  email_to_answer = none;
  answer_email_id = none;
  registrar_id = none;
  on_status_action = none;
}

abbrev resolve : UpdatePublicRequest
resolve = record nothing_set { status = some resolved }

abbrev new_reason : UpdatePublicRequest
new_reason = record nothing_set { reason = some none }

abbrev first_of : List RequestRow → Option RequestRow
first_of [] = none
first_of (r ∷ rs) = some r

first_of-IsLimitOne : IsLimitOne first_of
first_of-IsLimitOne = record { picks = picks; finds = finds }
  where
    picks : (rows : List RequestRow) (r : RequestRow) → first_of rows ≡ some r → Among r rows
    picks [] r h = cc
    picks (x ∷ rows) r h = inl (cc)

    finds : (rows : List RequestRow) → first_of rows ≡ none → rows ≡ []
    finds [] h = refl
    finds (x ∷ rows) h = cc

abbrev resolved_tables : Db
resolved_tables = (update kinds 5 none 6 authinfo resolve 1 tables).1

letters_stopped :
    resolved_tables.message_archive
    ≡ record { id = 1; public_request_id = 2; status = no_processing; moddate = 5 } ∷ []
unfolding update
letters_stopped = refl

statuses : (rows : List RequestRow) → List Status
statuses [] = []
statuses (r ∷ rows) = r.status ∷ statuses rows

others_invalidated : statuses resolved_tables.public_request ≡ resolved ∷ invalidated ∷ opened ∷ []
unfolding update statuses
others_invalidated = refl

opening_refused :
    (update kinds 5 none 6 authinfo (record nothing_set { status = some opened }) 1 tables).0
    ≡ err (
        bad_params (record {
          nothing_to_do = some 1;
          unknown_email_id = none;
          unknown_registrar_id = none;
          bad_public_request_status = some opened;
        }))
unfolding update
opening_refused = refl

returns :
    update kinds 5 none 6 authinfo resolve 1 tables ≡ (ok (result_of kinds first), resolved_tables)
unfolding update
returns = refl

update-AllLater_example : AllLater 5 tables.public_request resolved_tables.public_request
update-AllLater_example = update-AllLater kinds 5 none 6 authinfo resolve 1 tables

update_terminates_example : (update kinds 5 none 6 authinfo resolve 1 tables).0 ≢ err out_of_fuel
update_terminates_example = update_terminates kinds 5 none 6 authinfo resolve 1 tables (omega arith)

update_all-Left_example :
    Left (1 ∷ []) 9 (update_all kinds first_of 5 none 6 4 authinfo resolve 9 tables)
update_all-Left_example =
    update_all-Left kinds first_of first_of-IsLimitOne 5 none 6 authinfo resolve resolved refl 4 9
      tables (λ h. refl, (λ h. refl, (λ h. refl, tt))) (omega arith) (omega arith)

asked_first : any (is_asked (1 ∷ []) 9) tables.public_request ≡ true
unfolding is_asked
asked_first = refl

update_all_never_example : ¬ (
    (result : UpdateResult) × (db' : Db) × (update_all kinds first_of 5 none 6 100 authinfo
        new_reason 9 tables
      ≡ (ok result, db')))
update_all_never_example =
    update_all_never kinds 5 none authinfo new_reason refl first_of first_of-IsLimitOne 6 100 9
      tables asked_first

update-NoneOpened_example :
    (result_of kinds first ≡ result_of kinds first)
    × All (Closed 1) resolved_tables.public_request
    × ((t : Kind)
        → IsOneOf kinds t (authinfo ∷ block ∷ [])
        → All (λ x. is_opened_of kinds 9 (kind_name t) x ≡ false) resolved_tables.public_request)
update-NoneOpened_example =
    update-NoneOpened kinds 5 none 6 authinfo resolve 1 resolved first (authinfo ∷ block ∷ [])
      tables resolved_tables (result_of kinds first) returns refl refl refl refl
