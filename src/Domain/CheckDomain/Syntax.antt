-- ===== src/Domain/CheckDomain/Syntax.antt =====
-- The validation of a name in its zone throws nothing.
use fred_libfred.Boost.{StringAlgorithms, RegexEngine}
use fred_libfred.Boost.Parts.{glue}
use fred_libfred.Common.{
  pos, ◌+◌, ◌-◌, ◌<◌, ◌≡◌, refl, ap, List, [], arith, Text, length, take, all, if◌then◌else◌, Bool,
  true, false, not, ◌||◌, ok, some,
}
use fred_libfred.Domain.Name.{DomainName, dot, of_string}
use fred_libfred.Domain.Name.RoundTrip.{IsValid}
use fred_libfred.Domain.Name.Compliant.{valid_Lacks}
use fred_libfred.Domain.Name.Subdomains.{get_subdomains_cases}
use fred_libfred.Domain.Zone.{ZoneData, is_zone_of}
use fred_libfred.Domain.Zone.Search.{is_zone_of_iff}
use fred_libfred.Domain.Checker.{default_factory, get_default_domain_name_checker_factory_made}
use fred_libfred.Domain.Validator.{
  Validator, new_validator, set_zone_name, set_ctx, set_checker_names,
}
use fred_libfred.Domain.Validator.Verdict.{Known, exec-passes, passes}
use fred_libfred.Util.Factory.{require_superset}
use fred_libfred.Util.Factory.Laws.{is_each_key_in_factory_iff}
use fred_libfred.Domain.Config.{get_domain_name_validation_config_for_zone}
use fred_libfred.Domain.CheckDomain.{CheckDb, CheckSql, count_dots, fails_validation}
use fred_libfred.Domain.CheckDomain.Dots.{count_dots-append, count_dots-glue}

-- Known names are taken.
set-Known :
    (ns : List Text) (v : Validator)
    → Known ns
    → set_checker_names ns v
      ≡ ok (if v.is_system_registrar then v else record v { checker_names = ns })
unfolding set_checker_names require_superset
set-Known ns v k = ground (
  arith,
  get_default_domain_name_checker_factory_made,
  (is_each_key_in_factory_iff default_factory ns).1 k,
)

module _ (b : StringAlgorithms) (r : RegexEngine) (q : CheckSql) (db : CheckDb) where
  abbrev pub checkers : ZoneData → List Text
  checkers zone = get_domain_name_validation_config_for_zone q.zone_sql db.config zone.name

  -- The validator that checks the names of a zone.
  abbrev pub zone_validator : Bool → ZoneData → DomainName → Validator
  zone_validator system zone zone_name = record {
    zone_name = some zone_name;
    ctx = true;
    is_system_registrar = system;
    checker_names = if system then [] else checkers zone;
  }

  -- The labels below the zone.
  abbrev pub below : ZoneData → DomainName → DomainName
  below zone d = record { labels = take (length d.labels - (count_dots zone.name + 1)) d.labels }

  made :
      (system : Bool) (zone : ZoneData) (zone_name : DomainName)
      → Known (checkers zone)
      → (v : Validator) × (set_checker_names (checkers zone) (new_validator system) ≡ ok v)
        × (set_ctx (set_zone_name zone_name v) ≡ zone_validator system zone zone_name)
  unfolding set_ctx set_zone_name
  made true zone zone_name k = (_, set-Known (checkers zone) (new_validator true) k, refl)
  made false zone zone_name k = (_, set-Known (checkers zone) (new_validator false) k, refl)

  known :
      (system : Bool) (zone : ZoneData) (zone_name : DomainName)
      → Known (checkers zone)
      → Known (zone_validator system zone zone_name).checker_names
  known true zone zone_name k = tt
  known false zone zone_name k = k

  -- A name in a zone has more labels than the zone.
  pub more_labels :
      (fqdn domain : Text) (zone : ZoneData) (d : DomainName)
      → IsValid d
      → glue d.labels dot ≡ fqdn
      → count_dots domain ≡ count_dots fqdn
      → is_zone_of q.zone_sql domain zone.name ≡ true
      → count_dots zone.name + 1 < length d.labels
  more_labels fqdn domain zone d v e same z =
      let (init, ne, split) = (is_zone_of_iff q.zone_sql domain zone.name).0 z in
      omega (
        arith,
        count_dots-glue d.labels v.not_empty (valid_Lacks b d v),
        ap count_dots e,
        same,
        ap count_dots split,
        count_dots-append init zone.name,
      )

  abbrev pub all_pass : Bool → ZoneData → DomainName → DomainName → Bool
  all_pass system zone zone_name d =
      system
      || all (passes b r default_factory (zone_validator system zone zone_name) (below zone d))
          (checkers zone)

  same_verdict :
      (system : Bool) (zone : ZoneData) (zone_name d : DomainName)
      → (system
          || all
              (passes b r default_factory (zone_validator system zone zone_name) (below zone d))
              (zone_validator system zone zone_name).checker_names)
        ≡ all_pass system zone zone_name d
  same_verdict true zone zone_name d = refl
  same_verdict false zone zone_name d = refl

  -- A host name whose zone was found, with known checkers: the validation throws nothing, and the
  -- name fails if a checker does not pass the labels below the zone, unless the registrar is the
  -- system's.
  pub fails_validation-verdict :
      (system : Bool) (fqdn domain : Text) (zone : ZoneData) (zone_name d : DomainName)
      → of_string b zone.name ≡ ok zone_name
      → of_string b fqdn ≡ ok d
      → IsValid d
      → Known (checkers zone)
      → count_dots zone.name + 1 < length d.labels
      → fails_validation b r q db system fqdn zone ≡ ok (not (all_pass system zone zone_name d))
  unfolding fails_validation
  fails_validation-verdict system fqdn domain zone zone_name d ez ed v k lt =
      let (w, set, same) = made system zone zone_name k in
      let skip = (get_subdomains_cases b d (count_dots zone.name + 1) v).0 lt in
      let verdict =
        exec-passes b r (zone_validator system zone zone_name) d (pos (count_dots zone.name + 1))
          (below zone d) refl refl (known system zone zone_name k) skip in
      rw (set, ez, ed, same, verdict) (ap (λ x. ok (not x)) (same_verdict system zone zone_name d))
