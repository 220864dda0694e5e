-- ===== src/PublicRequest.antt =====
-- Public requests: libfred/public_request. The tables that the operations read and write, the types of
-- requests and what the operations throw.
pub mod Update
pub mod Keeps
pub mod Later
pub mod Terminates
pub mod Written
pub mod UpdateAll
pub mod Unresolved
pub mod Loop
pub mod Endless
pub mod Assigned
pub mod Twice
pub mod Closed
pub mod Cancels
pub mod EmailFormat
pub mod Create
pub mod Created
mod Tests
mod CreationTests
use fred_libfred.Common.Operations
use fred_libfred.Common.{ℕ, List, Text, Option, none, some, Bool, true, false}

-- `PublicRequest::Status` (libfred/public_request/public_request_status.hh).
pub data Status : Type 0 where
  opened resolved invalidated : Status

abbrev pub is_opened : Status → Bool
is_opened opened = true
is_opened resolved = false
is_opened invalidated = false

abbrev pub same_status : Status → Status → Bool
same_status opened opened = true
same_status resolved resolved = true
same_status invalidated invalidated = true
same_status _ _ = false

-- `PublicRequest::OnStatusAction`
-- (libfred/public_request/public_request_on_status_action.hh).
pub data OnStatusAction : Type 0 where
  scheduled processed failed : OnStatusAction

-- What an object of a class derived from `PublicRequestTypeIface` answers
-- (libfred/public_request/public_request_type_iface.hh); `Iface` has the objects. `none` stands for an
-- exception.
pub record TypeIface : Type 1 where
  pub Iface : Type 0
  pub get_public_request_type : Iface → Text
  pub get_public_request_types_to_cancel_on_create : Iface → Option (List Iface)
  pub get_public_request_types_to_cancel_on_update : Iface → Status → Status → Option (List Iface)
  pub get_on_status_action : Iface → Status → OnStatusAction

-- A row of `public_request` with the name of its type and with its row of
-- `public_request_objects_map`.
pub record RequestRow : Type 0 where
  pub id : ℕ
  pub type : Text
  pub object_id : ℕ
  pub status : Status
  pub resolve_time : Option ℕ
  pub reason : Option Text
  pub email_to_answer : Option Text
  pub answer_email_id : Option ℕ
  pub registrar_id : Option ℕ
  pub create_request_id : Option ℕ
  pub resolve_request_id : Option ℕ
  pub on_status_action : OnStatusAction

-- A row of `enum_send_status`.
pub data SendStatus : Type 0 where
  ready send_failed no_processing : SendStatus
  other_send_status : ℕ → SendStatus

-- A row of `message_archive` for each row of `public_request_messages_map`.
pub record MessageRow : Type 0 where
  pub id : ℕ
  pub public_request_id : ℕ
  pub status : SendStatus
  pub moddate : ℕ

-- `object`, `registrar` and `mail_archive` are lists of ids, `enum_public_request_type` is the list of
-- its names.
pub record Db : Type 0 where
  pub object : List ℕ
  pub registrar : List ℕ
  pub mail_archive : List ℕ
  pub enum_public_request_type : List Text
  pub public_request : List RequestRow
  pub message_archive : List MessageRow
  pub next_id : ℕ

-- The members of `UpdatePublicRequest::Exception` that its arguments set.
pub record BadParams : Type 0 where
  pub nothing_to_do : Option ℕ
  pub unknown_email_id : Option ℕ
  pub unknown_registrar_id : Option ℕ
  pub bad_public_request_status : Option Status

pub data RequestError : Type 0 where
  bad_params : BadParams → RequestError
  public_request_doesnt_exist : ℕ → RequestError
  object_doesnt_exist : ℕ → RequestError
  unknown_type : Text → RequestError
  no_request_found : Text → RequestError
  unknown_registrar_id : ℕ → RequestError
  wrong_email : Text → RequestError
  unexpected_public_request_type unexpected_object_id : RequestError
  -- the object of the type throws
  type_failed : RequestError
  -- the database refuses to set one column twice
  multiple_assignments : RequestError
  -- the recursion or the loop is cut off
  out_of_fuel : RequestError

abbrev pub Operation : Type 0 → Type 0
Operation = Operations.Operation RequestError Db
