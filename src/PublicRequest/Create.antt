-- ===== src/PublicRequest/Create.antt =====
-- `CreatePublicRequest` (libfred/public_request/create_public_request.cc) and `CreatePublicRequestAuth`
-- (libfred/public_request/create_public_request_auth.cc).
use fred_libfred.Common.{
  ℕ, suc, ◌+◌, List, [], ◌∷◌, ◌++◌, Text, text_eq, ◌==◌, any, length, not, if◌then◌else◌, Option,
  none, some, ok, err,
}
use fred_libfred.Common.Operations.{◌>>=◌, ◌>>◌, return, throw, throw_if}
use fred_libfred.PublicRequest.{
  TypeIface, opened, invalidated, OnStatusAction, RequestRow, Db, unknown_type,
  unknown_registrar_id, wrong_email, type_failed, Operation,
}
use fred_libfred.PublicRequest.Update.{
  UpdatePublicRequest, Cancel, cancel_requests, cancel_by, opened_requests, update,
}
use fred_libfred.PublicRequest.EmailFormat.{EmailRegex, is_email_address}

-- The members of `CreatePublicRequest`, also of `CreatePublicRequestAuth`.
pub record CreatePublicRequest : Type 0 where
  pub reason : Option Text
  pub email_to_answer : Option Text
  pub registrar_id : Option ℕ

-- `update_public_request_op`: the status, and the registrar if there is one.
abbrev pub nullable : Option ℕ → Option (Option ℕ)
nullable none = none
nullable (some i) = some (some i)

abbrev pub invalidating : Option ℕ → UpdatePublicRequest
invalidating registrar_id = record {
  status = some invalidated;
  reason = none;
  email_to_answer = none;
  answer_email_id = none;
  registrar_id = nullable registrar_id;
  on_status_action = none;
}

unfoldable pub check_email : EmailRegex → Option Text → Operation (Unit {0})
unfolding is_email_address
check_email e none = return tt
check_email e (some address) = throw_if (not (is_email_address e address)) (wrong_email address)

unfoldable pub check_registrar : Option ℕ → Operation (Unit {0})
check_registrar none db = (ok tt, db)
check_registrar (some i) db =
    throw_if (not (any (λ j. j == i) db.registrar)) (unknown_registrar_id i) db

abbrev pub opened_row : Option ℕ → Text → ℕ → OnStatusAction → CreatePublicRequest → Db → RequestRow
opened_row log_request_id name object_id action u db = record {
  id = db.next_id;
  type = name;
  object_id = object_id;
  status = opened;
  resolve_time = none;
  reason = u.reason;
  email_to_answer = u.email_to_answer;
  answer_email_id = none;
  registrar_id = u.registrar_id;
  create_request_id = log_request_id;
  resolve_request_id = none;
  on_status_action = action;
}

abbrev pub with_request : RequestRow → Db → Db
with_request row db = record db {
  public_request = db.public_request ++ row ∷ [];
  next_id = suc db.next_id;
}

unfoldable pub insert_request :
    Option ℕ → Text → ℕ → OnStatusAction → CreatePublicRequest → Operation ℕ
insert_request log_request_id name object_id action u db =
    let row = opened_row log_request_id name object_id action u db in
    if any (λ t. text_eq t name) db.enum_public_request_type
    then (ok row.id, with_request row db)
    else (err (unknown_type name), db)

module _ (types : TypeIface) where
  open types use {
    Iface, get_public_request_type, get_public_request_types_to_cancel_on_create,
    get_on_status_action,
  }

  -- The loop of `cancel_on_create`; `cancel` is the call of `exec` of the update.
  unfoldable pub cancel_counted : Cancel types → ℕ → ℕ → List Iface → Operation ℕ
  unfolding cancel_requests opened_requests
  cancel_counted cancel object_id number [] db = (ok number, db)
  cancel_counted cancel object_id number (t ∷ ts) db =
      let found = opened_requests types object_id (get_public_request_type t) db.public_request in
      let run : Operation ℕ =
        cancel_requests types cancel t found
        >> cancel_counted cancel object_id (number + length found) ts in
      run db

  abbrev pub cancel_listed : Cancel types → ℕ → Option (List Iface) → Operation ℕ
  cancel_listed cancel object_id none = throw type_failed
  cancel_listed cancel object_id (some ts) = cancel_counted cancel object_id 0 ts

  module _ (now : ℕ) (log_request_id : Option ℕ) (fuel : ℕ) where
    unfoldable pub cancel_on_create : Iface → ℕ → Option ℕ → Operation ℕ
    unfolding cancel_counted cancel_by update
    cancel_on_create type object_id registrar_id =
        cancel_listed
          (cancel_by types (update types now log_request_id fuel) (invalidating registrar_id))
          object_id (get_public_request_types_to_cancel_on_create type)

    -- `CreatePublicRequest::exec`.
    unfoldable pub create_public_request :
        EmailRegex → ℕ → Iface → CreatePublicRequest → Operation ℕ
    unfolding cancel_on_create check_email check_registrar insert_request
    create_public_request e object_id type u =
        cancel_on_create type object_id u.registrar_id >>= λ number.
        check_email e u.email_to_answer
        >> (check_registrar u.registrar_id
            >> insert_request log_request_id (get_public_request_type type) object_id
                (get_on_status_action type opened) u)

    -- `CreatePublicRequestAuth::exec`: the id, the identification and the password. The row of
    -- `public_request_auth` is the result; `default_action` is what the column `on_status_action` has if
    -- it is not set.
    unfoldable pub create_public_request_auth :
        OnStatusAction → Text → Text → ℕ → Iface → CreatePublicRequest → Operation (ℕ × Text × Text)
    unfolding cancel_on_create check_registrar insert_request
    create_public_request_auth default_action identification password object_id type u =
        cancel_on_create type object_id u.registrar_id >>= λ number.
        check_registrar u.registrar_id
        >> (insert_request log_request_id (get_public_request_type type) object_id default_action u
            >>= λ id. return (id, identification, password))
