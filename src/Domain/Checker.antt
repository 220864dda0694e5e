-- ===== src/Domain/Checker.antt =====
-- The checkers of domain names and their factory
-- (src/libfred/registrable_object/domain/domain_name.cc). `boost::regex` is a parameter.
use fred_libfred.Boost.{StringAlgorithms, RegexEngine}
use fred_libfred.Common.{
  ◌≡◌, refl, [], ◌∷◌, Text, codes, all, Bool, true, false, not, ◌&&◌, Result, ok, ◌>>=◌, Option,
  none, some,
}
use fred_libfred.Domain.Name.{DomainName, get_string}
use fred_libfred.Util.Factory.{Factory, FactoryError, add_producer, empty}

-- One constructor for each class derived from `DomainNameChecker`.
pub data Checker : Type 0 where
  not_empty_domain_name : Checker
  rfc1035_preferred_name_syntax : Checker
  no_consecutive_hyphens : Checker
  single_digit_labels_only : Checker
  no_idn_punycode : Checker

-- Whether the class derives from `DomainNameCheckerNeedZoneName`, and from
-- `DomainNameCheckerNeedOperationContext`.
abbrev pub needs_zone_name : Checker → Bool
needs_zone_name not_empty_domain_name = true
needs_zone_name _ = false

abbrev pub needs_operation_context : Checker → Bool
needs_operation_context not_empty_domain_name = true
needs_operation_context _ = false

abbrev pub rfc1035_name_syntax : Text
rfc1035_name_syntax =
    codes
      "(([A-Za-z]|[A-Za-z][-A-Za-z0-9]{0,61}[A-Za-z0-9])[.])*([A-Za-z]|[A-Za-z][-A-Za-z0-9]{0,61}[A-Za-z0-9])"

abbrev pub consecutive_hyphens_syntax : Text
consecutive_hyphens_syntax = codes "[-][-]"

abbrev pub single_digit_labels_syntax : Text
single_digit_labels_syntax = codes "([0-9][.])*[0-9]"

abbrev pub idn_punycode_prefix : Text
idn_punycode_prefix = codes "xn--"

abbrev pub is_empty : Text → Bool
is_empty [] = true
is_empty (c ∷ s) = false

-- `zone_name_` of the first checker; `none` is a null pointer, through which it must not read.
abbrev pub zone_is_empty : StringAlgorithms → Option DomainName → Bool
zone_is_empty b none = true
zone_is_empty b (some z) = is_empty (get_string b z)

module _ (b : StringAlgorithms) (r : RegexEngine) where
  -- The zone name and the context are those which `exec` has set just before.
  unfoldable pub validate : Checker → Option DomainName → Bool → DomainName → Bool
  validate not_empty_domain_name zone_name ctx relative =
      not (zone_is_empty b zone_name) && not (is_empty (get_string b relative)) && ctx
  validate rfc1035_preferred_name_syntax zone_name ctx relative =
      r.regex_match (get_string b relative) rfc1035_name_syntax
  validate no_consecutive_hyphens zone_name ctx relative =
      not (r.regex_search (get_string b relative) consecutive_hyphens_syntax)
  validate single_digit_labels_only zone_name ctx relative =
      r.regex_match (get_string b relative) single_digit_labels_syntax
  validate no_idn_punycode zone_name ctx relative =
      all (λ label. not (b.starts_with label idn_punycode_prefix)) relative.labels

abbrev pub dncheck_not_empty_domain_name : Text
dncheck_not_empty_domain_name = codes "dncheck_not_empty_domain_name"

abbrev pub dncheck_rfc1035_preferred_syntax : Text
dncheck_rfc1035_preferred_syntax = codes "dncheck_rfc1035_preferred_syntax"

abbrev pub dncheck_no_consecutive_hyphens : Text
dncheck_no_consecutive_hyphens = codes "dncheck_no_consecutive_hyphens"

abbrev pub dncheck_single_digit_labels_only : Text
dncheck_single_digit_labels_only = codes "dncheck_single_digit_labels_only"

abbrev pub dncheck_no_idn_punycode : Text
dncheck_no_idn_punycode = codes "dncheck_no_idn_punycode"

unfoldable pub get_default_domain_name_checker_factory : Result FactoryError (Factory Checker)
get_default_domain_name_checker_factory = do
  f₁ ← add_producer (dncheck_not_empty_domain_name, not_empty_domain_name) empty
  f₂ ← add_producer (dncheck_rfc1035_preferred_syntax, rfc1035_preferred_name_syntax) f₁
  f₃ ← add_producer (dncheck_no_consecutive_hyphens, no_consecutive_hyphens) f₂
  f₄ ← add_producer (dncheck_single_digit_labels_only, single_digit_labels_only) f₃
  add_producer (dncheck_no_idn_punycode, no_idn_punycode) f₄

unfoldable pub default_factory : Factory Checker
default_factory = record {
  key_producer_map =
      (dncheck_not_empty_domain_name, not_empty_domain_name)
      ∷ (dncheck_rfc1035_preferred_syntax, rfc1035_preferred_name_syntax)
      ∷ (dncheck_no_consecutive_hyphens, no_consecutive_hyphens)
      ∷ (dncheck_single_digit_labels_only, single_digit_labels_only)
      ∷ (dncheck_no_idn_punycode, no_idn_punycode)
      ∷ [];
}

-- The registration of the checkers never throws.
pub get_default_domain_name_checker_factory_made :
    get_default_domain_name_checker_factory ≡ ok default_factory
unfolding get_default_domain_name_checker_factory add_producer fred_libfred.Util.Factory.find
    default_factory
get_default_domain_name_checker_factory_made = refl
