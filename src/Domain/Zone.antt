-- ===== src/Domain/Zone.antt =====
-- `get_zone` and `find_zone_in_fqdn` (src/libfred/zone/zone.cc) over the rows of the table `zone`.
-- Parameters: `boost::to_lower_copy`, SQL `lower`, and the order in which the database answers
-- `SELECT fqdn FROM zone ORDER BY length(fqdn) DESC`.
pub mod Search
pub mod Longest
pub mod Found
use fred_libfred.Common.{
  ℕ, ◌+◌, ◌-◌, ◌≡◌, refl, List, [], ◌∷◌, map, arith, Text, text_eq, length, ltb, ◌==◌, filter, drop,
  if◌then◌else◌, Bool, true, false, ◌&&◌, ◌||◌, Result, ok, err, Option, none, some,
}
use fred_libfred.Domain.Name.{dot}

-- A row of `zone`, which is `Zone::Data` as well.
pub record ZoneData : Type 0 where
  pub id : ℕ
  pub is_enum : Bool
  pub name : Text
  pub dots_max : ℕ
  pub ex_period_min : ℕ
  pub ex_period_max : ℕ
  pub enum_validation_period : ℕ

-- What the two functions throw.
pub data ZoneError : Type 0 where
  not_found : ZoneError
  missing_zone_configuration : ZoneError
  unknown_zone_in_fqdn : Text → ZoneError

pub record ZoneSql : Type 0 where
  -- `boost::to_lower_copy`
  pub to_lower_copy : Text → Text
  -- SQL `lower`
  pub lower : Text → Text
  -- the rows of `SELECT fqdn FROM zone ORDER BY length(fqdn) DESC`, from those of the table
  pub order_by_length_desc : List Text → List Text
  -- the rows of a query without `ORDER BY`, from those in the order of the tables
  pub any_order : List Text → List Text

-- `std::string::compare` at a place, and `std::string::find(s, from) != npos`.
abbrev pub is_prefix : Text → Text → Bool
is_prefix [] s = true
is_prefix (c ∷ p) [] = false
is_prefix (c ∷ p) (d ∷ s) = c == d && is_prefix p s

abbrev pub occurs : Text → Text → Bool
occurs p [] = is_prefix p []
occurs p (d ∷ s) = is_prefix p (d ∷ s) || occurs p s

abbrev pub found_from : Text → Text → ℕ → Bool
found_from s p from = occurs p (drop from s)

-- The query must answer with one row.
abbrev pub only : List ZoneData → Result ZoneError ZoneData
only (z ∷ []) = ok z
only _ = err not_found

-- Any exception of `get_zone` is replaced.
abbrev pub or_unknown : Text → Result ZoneError ZoneData → Result ZoneError ZoneData
or_unknown fqdn (ok z) = ok z
or_unknown fqdn (err e) = err (unknown_zone_in_fqdn fqdn)

module _ (q : ZoneSql) where
  abbrev pub rows_named : List ZoneData → Text → List ZoneData
  rows_named zones zone_name = filter (λ z. text_eq z.name (q.lower zone_name)) zones

  unfoldable pub get_zone : List ZoneData → Text → Result ZoneError ZoneData
  get_zone zones zone_name = only (rows_named zones zone_name)

  -- The test of one candidate. `from` is an `int`: it is below 1 if the candidate with its dot is
  -- as long as the name or longer, which is asked before the truncated subtraction.
  unfoldable pub is_zone_of : Text → Text → Bool
  is_zone_of domain zone =
      let dot_zone = dot ∷ zone in
      if ltb (length dot_zone) (length domain)
      then found_from domain dot_zone (length domain - length dot_zone)
      else false

  -- The loop over the candidates, longest first.
  unfoldable pub try_zones : List ZoneData → Text → Text → List Text → Result ZoneError ZoneData
  try_zones zones fqdn domain [] = err (unknown_zone_in_fqdn fqdn)
  try_zones zones fqdn domain (zone ∷ rest) =
      let later = try_zones zones fqdn domain rest in
      if is_zone_of domain zone then or_unknown fqdn (get_zone zones zone) else later

  unfoldable pub find_zone_in_fqdn : List ZoneData → Text → Result ZoneError ZoneData
  find_zone_in_fqdn zones no_root_dot_fqdn =
      elim (q.order_by_length_desc (map (λ z. z.name) zones)) [
        | [] ↦ err missing_zone_configuration
        | z ∷ zs ↦ try_zones zones no_root_dot_fqdn (q.to_lower_copy no_root_dot_fqdn) (z ∷ zs)
      ]
