-- ===== src/ObjectState.antt =====
-- Requests for states of objects: src/libfred/object_state. The tables that the queries read and
-- write, and what the operations throw.
pub mod StateIds
pub mod Create
pub mod Changes
pub mod Cancel
pub mod Clear
mod Tests
use fred_libfred.Common.{ℕ, List, Text, Option, Bool}

-- A row of `object_registry`.
pub record ObjectRow : Type 0 where
  pub id : ℕ
  pub type : ℕ
  pub name : Text

-- A row of `enum_object_states`.
pub record StateRow : Type 0 where
  pub id : ℕ
  pub name : Text
  pub types : List ℕ
  pub manual : Bool

-- A row of `object_state_request`. Times are counted from some moment before all of them.
pub record RequestRow : Type 0 where
  pub id : ℕ
  pub object_id : ℕ
  pub state_id : ℕ
  pub crdate : ℕ
  pub valid_from : ℕ
  pub valid_to : Option ℕ
  pub canceled : Option ℕ

-- `next_request_id` is the sequence behind `object_state_request.id`.
pub record Db : Type 0 where
  pub object_registry : List ObjectRow
  pub enum_object_states : List StateRow
  pub object_state_request : List RequestRow
  pub next_request_id : ℕ

pub data RequestError : Type 0 where
  out_of_turn : RequestError
  object_id_not_found : ℕ → RequestError
  -- `Exception` of the creation, with the vector of names
  states_not_found : List Text → RequestError
  -- `GetObjectStateIdMap::Exception` and `Exception` of the cancellation, with names in a text
  state_not_found : List Text → RequestError
  overlayed_time_intervals : RequestError
  -- the database refuses a list of states with nothing in it, `IN ()`
  malformed_query : RequestError
