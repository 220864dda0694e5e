-- ===== src/Domain/CheckDomain.antt =====
-- `CheckDomain` (src/libfred/registrable_object/domain/check_domain.cc): whether a name can be
-- registered. The functions of SQL and the row that `LIMIT 1` leaves are parameters.
pub mod Dots
pub mod Syntax
pub mod Conditions
pub mod Available
mod Tests
use fred_libfred.Boost.{StringAlgorithms, RegexEngine}
use fred_libfred.Common.{
  ℤ, pos, negsuc, ℕ, suc, ◌+◌, ◌≡◌, List, [], ◌∷◌, ◌++◌, Text, codes, text_eq, ltb, leb, ◌==◌, any,
  filter, if◌then◌else◌, Bool, true, false, not, ◌&&◌, ◌||◌, Result, ok, err, ◌>>=◌, Option, none,
  some,
}
use fred_libfred.Domain.Name.{
  DomainName, NameError, dot, rem_trailing_dot, is_rfc1123_compliant_host_name, of_string,
}
use fred_libfred.Domain.Zone.{ZoneData, ZoneError, unknown_zone_in_fqdn, ZoneSql, find_zone_in_fqdn}
use fred_libfred.Domain.Validator.{
  ValidatorError, Validator, new_validator, set_zone_name, set_ctx, set_checker_names, exec,
}
use fred_libfred.Domain.Config.{ConfigDb, get_domain_name_validation_config_for_zone}
use fred_libfred.Domain.Blacklist.{BlacklistRow, ends_after}

pub data CheckError : Type 0 where
  zone_error : ZoneError → CheckError
  invalid_name : NameError → CheckError
  validator_error : ValidatorError → CheckError

abbrev pub lift_name {ℓ} : {A : Type ℓ} → Result NameError A → Result CheckError A
lift_name (ok a) = ok a
lift_name (err e) = err (invalid_name e)

abbrev pub lift_validator {ℓ} : {A : Type ℓ} → Result ValidatorError A → Result CheckError A
lift_validator (ok a) = ok a
lift_validator (err e) = err (validator_error e)

-- A registered domain: a row of `object_registry` that is not erased, with its row of `domain`.
pub record DomainRow : Type 0 where
  pub name : Text
  pub zone : ℕ

pub record CheckDb : Type 0 where
  pub config : ConfigDb
  pub domains : List DomainRow
  pub domain_blacklist : List BlacklistRow

pub record CheckSql : Type 0 where
  pub zone_sql : ZoneSql
  -- the operators `LIKE` and `~*`, the text first
  pub like : Text → Text → Bool
  pub matches : Text → Text → Bool
  -- the row that `LIMIT 1` leaves
  pub limit_1 : List DomainRow → Option DomainRow

-- `std::count(begin, end, '.')`
unfoldable pub count_dots : Text → ℕ
count_dots [] = 0
count_dots (c ∷ s) = let rest = count_dots s in if c == dot then suc rest else rest

-- The zone; `none` if the exception says that there is none for this name. Other exceptions go on.
unfoldable pub zone_or_none : Text → Result ZoneError ZoneData → Result CheckError (Option ZoneData)
zone_or_none no_root_dot_fqdn (ok zone) = ok (some zone)
zone_or_none no_root_dot_fqdn (err (unknown_zone_in_fqdn f)) =
    if text_eq f no_root_dot_fqdn then ok none else err (zone_error (unknown_zone_in_fqdn f))
zone_or_none no_root_dot_fqdn (err e) = err (zone_error e)

module _ (b : StringAlgorithms) (r : RegexEngine) (q : CheckSql) (db : CheckDb) where
  unfoldable pub find_zone : Text → Result CheckError (Option ZoneData)
  find_zone no_root_dot_fqdn =
      zone_or_none no_root_dot_fqdn (find_zone_in_fqdn q.zone_sql db.config.zone no_root_dot_fqdn)

  -- The validation of the name in its zone: whether the name does not pass.
  unfoldable pub fails_validation : Bool → Text → ZoneData → Result CheckError Bool
  fails_validation is_system_registrar fqdn zone = do
    validator ← lift_validator (
        set_checker_names
          (get_domain_name_validation_config_for_zone q.zone_sql db.config zone.name)
          (new_validator is_system_registrar))
    zone_name ← lift_name (of_string b zone.name)
    name ← lift_name (of_string b fqdn)
    passed ← lift_validator (
        exec b r (set_ctx (set_zone_name zone_name validator)) name
          (pos (count_dots zone.name + 1)))
    ok (not passed)

  abbrev pub in_zone {ℓ} :
      {A : Type ℓ} → A → (ZoneData → Result CheckError A) → Option ZoneData → Result CheckError A
  in_zone a f none = ok a
  in_zone a f (some zone) = f zone

  unfoldable pub is_invalid_syntax : Bool → Text → Result CheckError Bool
  is_invalid_syntax is_system_registrar fqdn =
      if not (is_rfc1123_compliant_host_name b fqdn)
      then ok true
      else (find_zone (rem_trailing_dot fqdn)
          >>= in_zone true (fails_validation is_system_registrar fqdn))

  unfoldable pub is_bad_zone : Text → Result CheckError Bool
  is_bad_zone fqdn = find_zone (rem_trailing_dot fqdn) >>= in_zone true (λ zone. ok false)

  unfoldable pub has_too_many_labels : Text → ZoneData → Bool
  has_too_many_labels no_root_dot_fqdn zone =
      ltb (count_dots zone.name + 1 + zone.dots_max) (count_dots no_root_dot_fqdn + 1)

  unfoldable pub is_bad_length : Text → Result CheckError Bool
  is_bad_length fqdn =
      find_zone (rem_trailing_dot fqdn)
      >>= in_zone true (λ zone. ok (has_too_many_labels (rem_trailing_dot fqdn) zone))

  -- `NOW()` is `now`.
  unfoldable pub is_blacklisted : ℕ → Text → Bool
  is_blacklisted now fqdn =
      any
        (λ e.
          q.matches (rem_trailing_dot fqdn) e.regexp
          && leb e.valid_from now
          && ends_after now e.valid_to)
        db.domain_blacklist

  -- The conditions of the two queries for a conflicting domain.
  unfoldable pub conflicts_in_zone : Text → ZoneData → DomainRow → Bool
  conflicts_in_zone no_root_dot_fqdn zone d =
      if zone.is_enum
      then ((q.like no_root_dot_fqdn (codes "%." ++ d.name)
            || q.like d.name (codes "%." ++ no_root_dot_fqdn)
            || text_eq d.name (q.zone_sql.lower no_root_dot_fqdn))
          && d.zone == zone.id)
      else text_eq d.name (q.zone_sql.lower no_root_dot_fqdn)

  abbrev pub name_of : Option DomainRow → Option Text
  name_of none = none
  name_of (some d) = some d.name

  -- `some` is true, with the name in the way; `none` is false.
  unfoldable pub is_registered : Text → Result CheckError (Option Text)
  is_registered fqdn =
      find_zone (rem_trailing_dot fqdn)
      >>= in_zone none (λ zone.
        ok (
          name_of (q.limit_1 (filter (conflicts_in_zone (rem_trailing_dot fqdn) zone) db.domains))))

  abbrev pub is_some : Option Text → Bool
  is_some none = false
  is_some (some n) = true

  -- `||` of the source: what stands to its right is not run after a true.
  abbrev pub or_else : Result CheckError Bool → Result CheckError Bool → Result CheckError Bool
  or_else (ok true) m = ok true
  or_else (ok false) m = m
  or_else (err e) m = err e

  unfoldable pub is_available : ℕ → Bool → Text → Result CheckError Bool
  is_available now is_system_registrar fqdn =
      or_else (is_invalid_syntax is_system_registrar fqdn) (
        or_else (is_bad_length fqdn)
          (or_else (is_registered fqdn >>= λ c. ok (is_some c)) (ok (is_blacklisted now fqdn))))
      >>= λ taken. ok (not taken)
