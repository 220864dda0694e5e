-- ===== src/PublicRequest/Update/Columns.antt =====
-- What `UpdatePublicRequest::update` checks and sets (libfred/public_request/update_public_request.cc).
use fred_libfred.Common.{
  ℕ, List, [], ◌∷◌, ◌++◌, map, Text, codes, text_eq, ◌==◌, any, if◌then◌else◌, Bool, true, false,
  ◌&&◌, ◌||◌, Option, none, some,
}
use fred_libfred.PublicRequest.{
  Status, opened, resolved, invalidated, is_opened, OnStatusAction, TypeIface, RequestRow,
  SendStatus, ready, send_failed, no_processing, other_send_status, MessageRow, Db, BadParams,
}

-- The members of `UpdatePublicRequest`: `none` is what is not set, `some none` sets NULL.
pub record UpdatePublicRequest : Type 0 where
  pub status : Option Status
  pub reason : Option (Option Text)
  pub email_to_answer : Option (Option Text)
  pub answer_email_id : Option (Option ℕ)
  pub registrar_id : Option (Option ℕ)
  pub on_status_action : Option OnStatusAction

-- `UpdatePublicRequest::Result`.
pub record UpdateResult : Type 0 where
  pub affected_requests : List ℕ
  pub public_request_type : Text
  pub object_id : ℕ

abbrev pub isset : {A : Type 0} → Option A → Bool
isset none = false
isset (some a) = true

abbrev pub or_else : {A : Type 0} → Option A → A → A
or_else none old = old
or_else (some new) old = new

abbrev pub is_unsent : SendStatus → Bool
is_unsent ready = true
is_unsent send_failed = true
is_unsent no_processing = false
is_unsent (other_send_status n) = false

abbrev pub is_opened_row : ℕ → List RequestRow → Bool
is_opened_row id = any (λ r. r.id == id && is_opened r.status)

abbrev pub stop_letter : ℕ → ℕ → MessageRow → MessageRow
stop_letter now id m =
    if m.public_request_id == id && is_unsent m.status
    then record m { status = no_processing; moddate = now }
    else m

-- `stop_letter_sending`: the letters of the request, if it is opened.
unfoldable pub stop_letter_sending : ℕ → ℕ → Db → Db
stop_letter_sending now id db =
    if is_opened_row id db.public_request
    then record db { message_archive = map (stop_letter now id) db.message_archive }
    else db

abbrev pub is_allowed : Option Status → Bool
is_allowed none = true
is_allowed (some opened) = false
is_allowed (some resolved) = true
is_allowed (some invalidated) = true

abbrev pub bad_status : Option Status → Option Status
bad_status s = if is_allowed s then none else s

-- An id that is set, is not NULL and is not in the table.
abbrev pub unknown_in : List ℕ → Option (Option ℕ) → Option ℕ
unknown_in ids none = none
unknown_in ids (some none) = none
unknown_in ids (some (some i)) = if any (λ j. j == i) ids then none else some i

-- Some column is set; `log_request_id` is `_resolve_log_request_id`.
abbrev pub sets_something : UpdatePublicRequest → Option ℕ → Bool
sets_something u log_request_id =
    (isset u.status && is_allowed u.status)
    || isset u.reason
    || isset u.email_to_answer
    || isset u.answer_email_id
    || isset u.registrar_id
    || isset u.on_status_action
    || isset log_request_id

abbrev pub column_if : {A : Type 0} → Text → Option A → List Text
column_if name none = []
column_if name (some a) = name ∷ []

abbrev pub status_columns : Option Status → List Text
status_columns none = []
status_columns (some s) = codes "status" ∷ codes "resolve_time" ∷ codes "on_status_action" ∷ []

-- `sql_set`: the columns of the `SET` part, as they are appended.
unfoldable pub sql_set : UpdatePublicRequest → Option ℕ → List Text
sql_set u log_request_id =
    status_columns u.status
    ++ (column_if (codes "reason") u.reason
        ++ (column_if (codes "email_to_answer") u.email_to_answer
            ++ (column_if (codes "answer_email_id") u.answer_email_id
                ++ (column_if (codes "registrar_id") u.registrar_id
                    ++ (column_if (codes "on_status_action") u.on_status_action
                        ++ column_if (codes "resolve_request_id") log_request_id)))))

abbrev pub repeats : List Text → Bool
repeats [] = false
repeats (c ∷ cs) = any (text_eq c) cs || repeats cs

-- PostgreSQL refuses an `UPDATE` that assigns a column more than once.
unfoldable pub assigns_twice : UpdatePublicRequest → Option ℕ → Bool
unfolding sql_set
assigns_twice u log_request_id = repeats (sql_set u log_request_id)

unfoldable pub check_params : UpdatePublicRequest → ℕ → Option ℕ → Db → BadParams
check_params u id log_request_id db = record {
  nothing_to_do = if sets_something u log_request_id then none else some id;
  unknown_email_id = unknown_in db.mail_archive u.answer_email_id;
  unknown_registrar_id = unknown_in db.registrar u.registrar_id;
  bad_public_request_status = bad_status u.status;
}

-- `Exception::throw_me`.
abbrev pub throw_me : BadParams → Bool
throw_me b =
    isset b.nothing_to_do
    || isset b.unknown_email_id
    || isset b.unknown_registrar_id
    || isset b.bad_public_request_status

-- `CASE WHEN status = opened THEN NOW() ELSE resolve_time END`, where a status is set.
abbrev pub new_resolve_time : ℕ → Option Status → RequestRow → Option ℕ
new_resolve_time now none r = r.resolve_time
new_resolve_time now (some s) r = if is_opened r.status then some now else r.resolve_time

abbrev pub or_null : {A : Type 0} → Option A → Option A → Option A
or_null none old = old
or_null (some new) old = some new

abbrev pub first_row : ℕ → List RequestRow → Option RequestRow
first_row id [] = none
first_row id (r ∷ rs) = if r.id == id then some r else first_row id rs

module _ (types : TypeIface) where
  open types use {
    Iface, get_public_request_type, get_public_request_types_to_cancel_on_update,
    get_on_status_action,
  }

  abbrev pub action_of : Iface → Option Status → OnStatusAction → OnStatusAction
  action_of type none old = old
  action_of type (some s) old = get_on_status_action type s

  abbrev pub new_action : Iface → UpdatePublicRequest → OnStatusAction → OnStatusAction
  new_action type u old = or_else u.on_status_action (action_of type u.status old)

  -- The `SET` part of the update.
  unfoldable pub set_columns : ℕ → Iface → UpdatePublicRequest → Option ℕ → RequestRow → RequestRow
  set_columns now type u log_request_id r = record r {
    status = or_else u.status r.status;
    resolve_time = new_resolve_time now u.status r;
    reason = or_else u.reason r.reason;
    email_to_answer = or_else u.email_to_answer r.email_to_answer;
    answer_email_id = or_else u.answer_email_id r.answer_email_id;
    registrar_id = or_else u.registrar_id r.registrar_id;
    resolve_request_id = or_null log_request_id r.resolve_request_id;
    on_status_action = new_action type u r.on_status_action;
  }

  abbrev pub updated_row : ℕ → ℕ → Iface → UpdatePublicRequest → Option ℕ → RequestRow → RequestRow
  updated_row now id type u log_request_id r =
      if r.id == id then set_columns now type u log_request_id r else r

  unfoldable pub updated_requests : ℕ → ℕ → Iface → UpdatePublicRequest → Option ℕ → Db → Db
  unfolding set_columns
  updated_requests now id type u log_request_id db = record db {
    public_request = map (updated_row now id type u log_request_id) db.public_request;
  }
