-- ===== src/Domain/Config.antt =====
-- The checkers of a zone in the database
-- (src/libfred/registrable_object/domain/domain_name.cc). The rows of a query without `ORDER BY`
-- come in any order (`any_order`).
pub mod Stored
mod Tests
use fred_libfred.Common.{
  ℕ, suc, ◌≡◌, List, [], ◌∷◌, ◌++◌, map, Text, text_eq, ◌==◌, any, filter, if◌then◌else◌, not, ◌&&◌,
  Bool, Result, ok, ◌>>=◌,
}
use fred_libfred.Domain.Zone.{ZoneData, ZoneError, ZoneSql, get_zone}

-- A row of `enum_domain_name_validation_checker`.
pub record CheckerRow : Type 0 where
  pub id : ℕ
  pub name : Text
  pub description : Text

-- A row of `zone_domain_name_validation_checker_map`.
pub record MapRow : Type 0 where
  pub zone_id : ℕ
  pub checker_id : ℕ

pub record ConfigDb : Type 0 where
  pub zone : List ZoneData
  pub enum_checker : List CheckerRow
  pub checker_map : List MapRow
  -- the sequence behind `enum_domain_name_validation_checker.id`
  pub next_checker_id : ℕ

unfoldable pub insert_domain_name_checker_name_into_database : Text → Text → ConfigDb → ConfigDb
insert_domain_name_checker_name_into_database checker_name checker_description db = record db {
  enum_checker =
      db.enum_checker
      ++ record { id = db.next_checker_id; name = checker_name; description = checker_description }
        ∷ [];
  next_checker_id = suc db.next_checker_id;
}

-- The `INSERT … SELECT` for one name.
unfoldable pub insert_checker : ℕ → Text → ConfigDb → ConfigDb
insert_checker zone_id checker_name db = record db {
  checker_map =
      db.checker_map
      ++ map (λ (c : CheckerRow). record { zone_id = zone_id; checker_id = c.id })
          (filter (λ c. text_eq c.name checker_name) db.enum_checker);
}

-- The loop over the names.
unfoldable pub insert_checkers : ℕ → List Text → ConfigDb → ConfigDb
insert_checkers zone_id [] db = db
insert_checkers zone_id (n ∷ ns) db = insert_checkers zone_id ns (insert_checker zone_id n db)

unfoldable pub delete_checkers : ℕ → ConfigDb → ConfigDb
delete_checkers zone_id db = record db {
  checker_map = filter (λ m. not (m.zone_id == zone_id)) db.checker_map;
}

unfoldable pub set_domain_name_validation_config_into_database :
    ZoneSql → Text → List Text → ConfigDb → Result ZoneError ConfigDb
set_domain_name_validation_config_into_database q zone_name checker_names db = do
  zone ← get_zone q db.zone zone_name
  ok (insert_checkers zone.id checker_names (delete_checkers zone.id db))

-- The rows of the join for one checker and one row of the map.
abbrev pub is_for_zone : ZoneSql → Text → List ZoneData → MapRow → Bool
is_for_zone q zone_name zones m =
    any (λ z. z.id == m.zone_id && text_eq z.name (q.lower zone_name)) zones

abbrev pub names_of : List CheckerRow → MapRow → List Text
names_of cs m = map (λ c. c.name) (filter (λ c. m.checker_id == c.id) cs)

abbrev pub names_in_map : List CheckerRow → List MapRow → List Text
names_in_map cs [] = []
names_in_map cs (m ∷ ms) = names_of cs m ++ names_in_map cs ms

unfoldable pub get_domain_name_validation_config_for_zone : ZoneSql → ConfigDb → Text → List Text
get_domain_name_validation_config_for_zone q db zone_name =
    q.any_order
      (names_in_map db.enum_checker (filter (is_for_zone q zone_name db.zone) db.checker_map))
