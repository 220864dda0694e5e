-- ===== src/Domain/CheckDomain/Tests.antt =====
-- Runs of the check of a name, on two zones of which one is below the other.
use fred_libfred.Boost.{RegexEngine}
use fred_libfred.Boost.Plain.{plain}
use fred_libfred.Common.{
  ◌≡◌, ◌↔◌, refl, List, [], ◌∷◌, arith, codes, true, false, ok, Option, none, some,
}
use fred_libfred.Domain.Name.{
  of_string, is_rfc1123_compliant_host_name, rem_trailing_dot, is_letter_digit_hyphen_dot,
  is_bad_label,
}
use fred_libfred.Domain.Zone.{ZoneData, find_zone_in_fqdn, try_zones, is_zone_of, get_zone}
use fred_libfred.Domain.Zone.Search.{IsZoneTable}
use fred_libfred.Domain.Checker.{dncheck_no_idn_punycode, default_factory}
use fred_libfred.Domain.Config.{get_domain_name_validation_config_for_zone}
use fred_libfred.Domain.CheckDomain.{
  CheckDb, CheckSql, DomainRow, is_available, is_registered, is_bad_length, count_dots, find_zone,
  zone_or_none, conflicts_in_zone, has_too_many_labels,
}
use fred_libfred.Domain.CheckDomain.Conditions.{IsConfigured}
use fred_libfred.Domain.CheckDomain.Available.{Decides, is_available-Decides}
use fred_libfred.Util.Factory.{has_key}

abbrev no_regex : RegexEngine
no_regex = record { regex_match = λ s p. false; regex_search = λ s p. false }

abbrev zone_cz : ZoneData
zone_cz = record {
  id = 1;
  is_enum = false;
  name = codes "cz";
  dots_max = 1;
  ex_period_min = 12;
  ex_period_max = 120;
  enum_validation_period = 0;
}

abbrev zone_co_cz : ZoneData
zone_co_cz = record zone_cz { id = 2; name = codes "co.cz" }

abbrev first : List DomainRow → Option DomainRow
first [] = none
first (d ∷ ds) = some d

-- In this SQL no text matches a pattern.
abbrev sql : CheckSql
sql = record {
  zone_sql = record {
    to_lower_copy = λ s. s;
    lower = λ s. s;
    order_by_length_desc = λ ns. ns;
    any_order = λ ns. ns;
  };
  like = λ s p. false;
  matches = λ s p. false;
  limit_1 = first;
}

abbrev db : CheckDb
db = record {
  config = record {
    zone = zone_co_cz ∷ zone_cz ∷ [];
    enum_checker = record { id = 4; name = dncheck_no_idn_punycode; description = [] } ∷ [];
    checker_map = record { zone_id = 1; checker_id = 4 } ∷ [];
    next_checker_id = 5;
  };
  domains = record { name = codes "nic.cz"; zone = 1 } ∷ [];
  domain_blacklist = [];
}

first_iff : (ds : List DomainRow) → (first ds ≡ none) ↔ (ds ≡ [])
first_iff [] = (λ h. refl, λ h. refl)
first_iff (d ∷ ds) = (λ h. cc, λ h. cc)

two_zones-IsZoneTable : IsZoneTable sql.zone_sql (zone_co_cz ∷ zone_cz ∷ [])
two_zones-IsZoneTable = record {
  lower_case = (refl, (refl, tt));
  distinct = (((λ e. cc), tt), (tt, tt));
  same = λ P. (λ h. h, λ h. h);
  descends = omega arith;
}

db-IsConfigured : IsConfigured plain no_regex sql db
unfolding of_string is_rfc1123_compliant_host_name rem_trailing_dot is_letter_digit_hyphen_dot
    is_bad_label get_domain_name_validation_config_for_zone has_key default_factory
    fred_libfred.Util.Factory.find
db-IsConfigured = record {
  table = two_zones-IsZoneTable;
  not_empty = λ e. cc;
  readable = ((_, refl), ((_, refl), tt));
  known = (tt, ((refl, tt), tt));
  keeps_dots = λ s. refl;
  limit_1_iff = first_iff;
}

is_available-Decides_example :
    Decides plain no_regex sql db db-IsConfigured 10 false
      (codes "www.cz")
      (is_available plain no_regex sql db 10 false (codes "www.cz"))
is_available-Decides_example =
    is_available-Decides plain no_regex sql db db-IsConfigured 10 false (codes "www.cz")

nic_is_registered :
    is_registered plain no_regex sql db (codes "nic.cz.") ≡ ok (some (codes "nic.cz"))
unfolding is_registered find_zone zone_or_none find_zone_in_fqdn try_zones is_zone_of get_zone
    rem_trailing_dot conflicts_in_zone
nic_is_registered = refl

too_long : is_bad_length plain no_regex sql db (codes "a.b.cz") ≡ ok true
unfolding is_bad_length has_too_many_labels count_dots find_zone zone_or_none find_zone_in_fqdn
    try_zones is_zone_of get_zone rem_trailing_dot
too_long = refl
