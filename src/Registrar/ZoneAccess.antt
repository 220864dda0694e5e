-- ===== src/Registrar/ZoneAccess.antt =====
-- The access of registrars to zones (libfred/registrar/zone_access): the tables that the operations
-- read and write, and what they throw.
pub mod Change
pub mod History
pub mod Exclusive
pub mod Calls
pub mod Inserted
pub mod Access
pub mod Returns
mod Tests
use fred_libfred.Common.Operations
use fred_libfred.Common.{
  ℕ, List, [], ◌∷◌, Text, text_eq, if◌then◌else◌, ltb, leb, Bool, true, false, ◌&&◌, Option, none,
  some,
}

pub record RegistrarRow : Type 0 where
  pub id : ℕ
  pub handle : Text

pub record ZoneRow : Type 0 where
  pub id : ℕ
  pub fqdn : Text

-- A row of `registrarinvoice`; days are numbered.
pub record AccessRow : Type 0 where
  pub id : ℕ
  pub registrarid : ℕ
  pub zone : ℕ
  pub fromdate : ℕ
  pub todate : Option ℕ

-- `next_id` is the sequence behind `registrarinvoice.id`.
pub record Db : Type 0 where
  pub registrar : List RegistrarRow
  pub zone : List ZoneRow
  pub registrarinvoice : List AccessRow
  pub next_id : ℕ

-- `boost::gregorian::date`.
pub data Date : Type 0 where
  day : ℕ → Date
  special : Date

pub data AccessError : Type 0 where
  invalid_date_from overlapping_zone_access_range nonexistent_registrar nonexistent_zone :
      AccessError
  no_update_data invalid_zone_access_period nonexistent_zone_access : AccessError
  duplicity_in_database unexpected_number_of_rows : AccessError
  -- no exception: a period that ends before it starts is a key for which `CompareByTime` is no ordering,
  -- and C++ does not define what a `std::map` does with it
  undefined_order : AccessError

abbrev pub Operation : Type 0 → Type 0
Operation = Operations.Operation AccessError Db

-- SQL `UPPER` and `LOWER`.
pub record Letters : Type 0 where
  pub upper : Text → Text
  pub lower : Text → Text
