-- ===== src/Contact/Tables.antt =====
-- The tables that the filters of src/libfred/registrable_object/contact/merge_contact_selection.cc
-- read. A row of a table of contacts of domains, nssets or keysets refers to a row of its object.
-- Times are numbers, and two of them are printed alike exactly if they are equal.
use fred_libfred.Common.{ℕ, List, Text, Option}

-- A contact: a row of `contact` with that of `object_registry`, which is not erased.
pub record ContactRow : Type 0 where
  pub id : ℕ
  pub name : Text
  pub crdate : ℕ

-- A state that has not ended, with its name.
pub record StateRow : Type 0 where
  pub object_id : ℕ
  pub name : Text

pub record DomainRow : Type 0 where
  pub id : ℕ
  pub registrant : ℕ

-- A row of a table of contacts, with the role, which only domains have.
pub record ContactMapRow : Type 0 where
  pub object_id : ℕ
  pub contact_id : ℕ
  pub role : ℕ

-- A row of `object`, with the handle of the registrar `clid`.
pub record ObjectRow : Type 0 where
  pub id : ℕ
  pub update : Option ℕ
  pub registrar : Text

pub record ContactDb : Type 0 where
  pub contact : List ContactRow
  pub object_state : List StateRow
  -- the contacts of the identities that have not ended
  pub contact_identity : List ℕ
  pub domain : List DomainRow
  pub domain_contact_map : List ContactMapRow
  pub nsset_contact_map : List ContactMapRow
  pub keyset_contact_map : List ContactMapRow
  pub object : List ObjectRow

-- SQL `UPPER`, `boost::to_lower_copy`, `ORDER BY … DESC` on the second column, and the first row by
-- `ORDER BY crdate DESC, id DESC LIMIT 1`.
pub record ContactSql : Type 0 where
  pub upper : Text → Text
  pub to_lower_copy : Text → Text
  pub order_by_desc : List (Text × ℕ) → List (Text × ℕ)
  pub last_created : List ContactRow → Option ContactRow
