-- ===== src/Domain/Validator.antt =====
-- `DomainNameValidator` (src/libfred/registrable_object/domain/domain_name.cc).
pub mod Verdict
use fred_libfred.Boost.{StringAlgorithms, RegexEngine}
use fred_libfred.Common.{
  ℤ, pos, negsuc, ◌≡◌, refl, List, [], ◌∷◌, ◌++◌, Text, if◌then◌else◌, Bool, true, false, not, ◌||◌,
  Result, ok, err, guard, ◌>>=◌, ◌>>◌, Option, none, some,
}
use fred_libfred.Domain.Name.{DomainName, NameError, get_subdomains}
use fred_libfred.Domain.Checker.{
  Checker, needs_zone_name, needs_operation_context, validate,
  get_default_domain_name_checker_factory,
}
use fred_libfred.Util.Factory.{Factory, FactoryError, at, require_superset}

pub data ValidatorError : Type 0 where
  name_error : NameError → ValidatorError
  factory_error : FactoryError → ValidatorError
  zone_name_not_set : ValidatorError
  ctx_not_set : ValidatorError

abbrev pub lift_name {ℓ} : {A : Type ℓ} → Result NameError A → Result ValidatorError A
lift_name (ok a) = ok a
lift_name (err e) = err (name_error e)

abbrev pub lift_factory {ℓ} : {A : Type ℓ} → Result FactoryError A → Result ValidatorError A
lift_factory (ok a) = ok a
lift_factory (err e) = err (factory_error e)

pub record Validator : Type 0 where
  pub zone_name : Option DomainName
  -- whether the pointer to the operation context is set
  pub ctx : Bool
  pub is_system_registrar : Bool
  pub checker_names : List Text

abbrev pub new_validator : Bool → Validator
new_validator is_system_registrar = record {
  zone_name = none;
  ctx = false;
  is_system_registrar = is_system_registrar;
  checker_names = [];
}

unfoldable pub set_zone_name : DomainName → Validator → Validator
set_zone_name zone v = record v { zone_name = some zone }

unfoldable pub set_ctx : Validator → Validator
set_ctx v = record v { ctx = true }

unfoldable pub add : Text → Validator → Result ValidatorError Validator
add checker_name v = do
  factory ← lift_factory get_default_domain_name_checker_factory
  lift_factory (require_superset factory (checker_name ∷ []))
  ok (record v { checker_names = v.checker_names ++ checker_name ∷ [] })

unfoldable pub set_checker_names : List Text → Validator → Result ValidatorError Validator
set_checker_names names v = if v.is_system_registrar then ok v else do
  factory ← lift_factory get_default_domain_name_checker_factory
  lift_factory (require_superset factory names)
  ok (record v { checker_names = names })

abbrev pub is_set : Option DomainName → Bool
is_set none = false
is_set (some z) = true

module _ (b : StringAlgorithms) (r : RegexEngine) where
  -- One round of the loop: whether the name passes the checker.
  unfoldable pub check_one :
      Factory Checker → Validator → DomainName → Text → Result ValidatorError Bool
  check_one factory v labels_to_check checker_name = do
    checker ← lift_factory (at factory checker_name)
    guard (not (needs_zone_name checker) || is_set v.zone_name) zone_name_not_set
    guard (not (needs_operation_context checker) || v.ctx) ctx_not_set
    ok (validate b r checker v.zone_name v.ctx labels_to_check)

  unfoldable pub check_all :
      Factory Checker → Validator → DomainName → List Text → Result ValidatorError Bool
  check_all factory v labels_to_check [] = ok true
  check_all factory v labels_to_check (n ∷ ns) = do
    passed ← check_one factory v labels_to_check n
    let rest = check_all factory v labels_to_check ns
    if passed then rest else ok false

  unfoldable pub exec : Validator → DomainName → ℤ → Result ValidatorError Bool
  unfolding check_all
  exec v fqdn top_labels_to_skip = do
    labels_to_check ← lift_name (get_subdomains b fqdn top_labels_to_skip)
    if v.is_system_registrar then ok true else do
      factory ← lift_factory get_default_domain_name_checker_factory
      check_all factory v labels_to_check v.checker_names
