-- ===== src/Domain/Tests.antt =====
-- Domain names, validators and zones at concrete inputs.
use fred_libfred.Boost.{RegexEngine}
use fred_libfred.Boost.Plain.{plain}
use fred_libfred.Common.{
  All, pos, ℕ, ◌≤◌, ◌≡◌, refl, ◌≢◌, [], ◌∷◌, Text, codes, length, true, false, ok, err, some, arith,
  ◌||◌, all,
}
use fred_libfred.Domain.Name.{
  DomainName, rem_trailing_dot, is_letter_digit_hyphen_dot, is_bad_label,
  is_rfc1123_compliant_host_name, of_string, get_string, get_subdomains, invalid_fqdn,
}
use fred_libfred.Domain.Name.Syntax.{IsHostName, is_rfc1123_compliant_host_name_iff}
use fred_libfred.Domain.Name.RoundTrip.{IsValid, of_string-IsValid, get_string-of_string}
use fred_libfred.Domain.Name.Subdomains.{labels_bound, get_subdomains_cases}
use fred_libfred.Domain.Checker.{default_factory, dncheck_no_idn_punycode}
use fred_libfred.Domain.Validator.{Validator, exec}
use fred_libfred.Domain.Validator.Verdict.{Known, passes, exec-passes}
use fred_libfred.Domain.Zone.{ZoneData, ZoneSql, is_zone_of, get_zone, try_zones, find_zone_in_fqdn}
use fred_libfred.Domain.Zone.Search.{IsZoneTable}
use fred_libfred.Domain.Zone.Longest.{ZoneOutcome, find_zone_in_fqdn_longest}
use fred_libfred.Util.Factory.{
  Factory, find, has_key, at, add_producer, is_each_key_in_factory, empty,
}
use fred_libfred.Util.Factory.Laws.{at-add_producer, is_each_key_in_factory_iff}

abbrev nic : DomainName
nic = record { labels = codes "www" ∷ codes "nic" ∷ codes "cz" ∷ [] }

nic_read : of_string plain (codes "www.nic.cz.") ≡ ok nic
unfolding of_string is_rfc1123_compliant_host_name is_bad_label rem_trailing_dot
    is_letter_digit_hyphen_dot
nic_read = refl

hyphen_refused : of_string plain (codes "-a.cz") ≡ err invalid_fqdn
unfolding of_string is_rfc1123_compliant_host_name is_bad_label rem_trailing_dot
    is_letter_digit_hyphen_dot
hyphen_refused = refl

nic_compliant : is_rfc1123_compliant_host_name plain (codes "www.nic.cz.") ≡ true
unfolding is_rfc1123_compliant_host_name is_bad_label rem_trailing_dot is_letter_digit_hyphen_dot
nic_compliant = refl

nic-IsValid : IsValid nic
nic-IsValid = of_string-IsValid plain (codes "www.nic.cz.") nic_read

is_rfc1123_compliant_host_name_iff_example : IsHostName (rem_trailing_dot (codes "www.nic.cz."))
is_rfc1123_compliant_host_name_iff_example =
    (is_rfc1123_compliant_host_name_iff plain (codes "www.nic.cz.")).0 nic_compliant

get_string-of_string_example :
    (get_string plain nic ≡ rem_trailing_dot (codes "www.nic.cz."))
    × (of_string plain (get_string plain nic) ≡ ok nic)
get_string-of_string_example = get_string-of_string plain (codes "www.nic.cz.") nic_read

get_subdomains_cases_example : get_subdomains plain nic (pos 3) ≡ err invalid_fqdn
get_subdomains_cases_example = (get_subdomains_cases plain nic 3 nic-IsValid).1 refl

labels_bound_example :
    (1 ≤ length nic.labels)
    × (length nic.labels ≤ 127)
    × All (λ l. (1 ≤ length l) × (length l ≤ 63)) nic.labels
    × (length (get_string plain nic) ≤ 253)
labels_bound_example = labels_bound plain (codes "www.nic.cz.") nic_read

-- An engine that finds nothing; the checker of the prefix xn-- does not ask it.
abbrev no_regex : RegexEngine
no_regex = record { regex_match = λ s p. false; regex_search = λ s p. false }

abbrev strict : Validator
strict = record {
  zone_name = some (record { labels = codes "cz" ∷ [] });
  ctx = true;
  is_system_registrar = false;
  checker_names = dncheck_no_idn_punycode ∷ [];
}

strict-Known : Known strict.checker_names
unfolding has_key default_factory find
strict-Known = (refl, tt)

skip_zone :
    get_subdomains plain nic (pos 1) ≡ ok (record { labels = codes "www" ∷ codes "nic" ∷ [] })
skip_zone = (get_subdomains_cases plain nic 1 nic-IsValid).0 (omega arith)

exec-passes_example :
    exec plain no_regex strict nic (pos 1)
    ≡ ok (
        strict.is_system_registrar
        || all
            (passes plain no_regex default_factory strict
              (record { labels = codes "www" ∷ codes "nic" ∷ [] }))
            strict.checker_names)
exec-passes_example =
    exec-passes plain no_regex strict nic (pos 1)
      (record { labels = codes "www" ∷ codes "nic" ∷ [] }) refl refl strict-Known skip_zone

abbrev zone_cz : ZoneData
zone_cz = record {
  id = 1;
  is_enum = false;
  name = codes "cz";
  dots_max = 1;
  ex_period_min = 12;
  ex_period_max = 120;
  enum_validation_period = 0;
}

abbrev zone_co_cz : ZoneData
zone_co_cz = record zone_cz { id = 2; name = codes "co.cz" }

-- The names of the test are in lower case, and the longer one stands first in the table.
abbrev in_order : ZoneSql
in_order = record {
  to_lower_copy = λ s. s;
  lower = λ s. s;
  order_by_length_desc = λ ns. ns;
  any_order = λ ns. ns;
}

two_zones-IsZoneTable : IsZoneTable in_order (zone_co_cz ∷ zone_cz ∷ [])
two_zones-IsZoneTable = record {
  lower_case = (refl, (refl, tt));
  distinct = (((λ e. cc), tt), (tt, tt));
  same = λ P. (λ h. h, λ h. h);
  descends = omega arith;
}

find_zone_in_fqdn_longest_example :
    ZoneOutcome in_order
      (zone_co_cz ∷ zone_cz ∷ [])
      (codes "a.co.cz")
      (codes "a.co.cz")
      (find_zone_in_fqdn in_order (zone_co_cz ∷ zone_cz ∷ []) (codes "a.co.cz"))
find_zone_in_fqdn_longest_example =
    find_zone_in_fqdn_longest in_order (zone_co_cz ∷ zone_cz ∷ []) (codes "a.co.cz")
      two_zones-IsZoneTable (λ e. cc)

found_co_cz :
    find_zone_in_fqdn in_order (zone_co_cz ∷ zone_cz ∷ []) (codes "a.co.cz") ≡ ok zone_co_cz
unfolding find_zone_in_fqdn try_zones is_zone_of get_zone
found_co_cz = refl

no_key_yet : has_key {P = ℕ} empty (codes "a") ≡ false
unfolding has_key find
no_key_yet = refl

at-add_producer_example :
    (g : Factory ℕ) × (add_producer (codes "a", 7) empty ≡ ok g)
    × (at g (codes "a") ≡ ok 7)
    × ((j : Text) → j ≢ codes "a" → at g j ≡ at {P = ℕ} empty j)
at-add_producer_example = (at-add_producer empty (codes "a") 7).1 no_key_yet

is_each_key_in_factory_iff_example :
    is_each_key_in_factory default_factory (dncheck_no_idn_punycode ∷ []) ≡ true
is_each_key_in_factory_iff_example =
    (is_each_key_in_factory_iff default_factory (dncheck_no_idn_punycode ∷ [])).1 strict-Known
