-- ===== src/Domain/Config/Tests.antt =====
-- Runs of the configuration of a zone.
use fred_libfred.Common.{◌≡◌, ◌≢◌, refl, [], ◌∷◌, Text, codes, false, ok}
use fred_libfred.Domain.Zone.{ZoneData, ZoneSql, get_zone}
use fred_libfred.Domain.Config.{
  ConfigDb, insert_domain_name_checker_name_into_database,
  set_domain_name_validation_config_into_database, get_domain_name_validation_config_for_zone,
}
use fred_libfred.Domain.Config.Stored.{count, get_config-set_config}

abbrev sql : ZoneSql
sql = record {
  to_lower_copy = λ s. s;
  lower = λ s. s;
  order_by_length_desc = λ ns. ns;
  any_order = λ ns. ns;
}

abbrev zone_cz : ZoneData
zone_cz = record {
  id = 1;
  is_enum = false;
  name = codes "cz";
  dots_max = 1;
  ex_period_min = 12;
  ex_period_max = 120;
  enum_validation_period = 0;
}

abbrev empty_config : ConfigDb
empty_config = record {
  zone = zone_cz ∷ [];
  enum_checker = [];
  checker_map = [];
  next_checker_id = 1;
}

abbrev db : ConfigDb
db = record {
  zone = zone_cz ∷ [];
  enum_checker =
      record { id = 1; name = codes "a"; description = [] }
      ∷ record { id = 2; name = codes "b"; description = [] }
      ∷ [];
  checker_map = record { zone_id = 1; checker_id = 1 } ∷ [];
  next_checker_id = 3;
}

two_inserted :
    (insert_domain_name_checker_name_into_database
      (codes "b")
      []
      (insert_domain_name_checker_name_into_database (codes "a") [] empty_config)).enum_checker
    ≡ db.enum_checker
unfolding insert_domain_name_checker_name_into_database
two_inserted = refl

zone_is_cz : get_zone sql db.zone (codes "cz") ≡ ok zone_cz
unfolding get_zone
zone_is_cz = refl

get_config-set_config_example :
    (after : ConfigDb) × (set_domain_name_validation_config_into_database sql
        (codes "cz")
        (codes "b" ∷ codes "a" ∷ [])
        db
      ≡ ok after)
    × ((c : Text)
        → count c (get_domain_name_validation_config_for_zone sql after (codes "cz"))
          ≡ count c (codes "b" ∷ codes "a" ∷ []))
    × ((n : Text) (w : ZoneData) (c : Text)
        → get_zone sql db.zone n ≡ ok w
        → w.id ≢ 1
        → count c (get_domain_name_validation_config_for_zone sql after n)
          ≡ count c (get_domain_name_validation_config_for_zone sql db n))
get_config-set_config_example =
    get_config-set_config sql db (codes "cz") (codes "b" ∷ codes "a" ∷ []) zone_cz (λ xs x. refl)
      zone_is_cz ((_, refl, refl, refl), ((_, refl, refl, refl), tt))
