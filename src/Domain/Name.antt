-- ===== src/Domain/Name.antt =====
-- `DomainName` and `is_rfc1123_compliant_host_name`
-- (src/libfred/registrable_object/domain/domain_name.cc), and `rem_trailing_dot`
-- (src/libfred/zone/zone.cc). What Boost does with strings is a parameter.
pub mod Characters
pub mod Syntax
pub mod RoundTrip
pub mod Subdomains
pub mod Compliant
use fred_libfred.Boost.{StringAlgorithms}
use fred_libfred.Common.{
  ℤ, pos, negsuc, ℕ, ◌+◌, ◌-◌, ◌≡◌, refl, List, [], ◌∷◌, ◌++◌, arith, Text, codes, all, any, length,
  take, ltb, ◌==◌, is_member, c_str, if◌then◌else◌, Bool, true, false, not, ◌&&◌, ◌||◌, Result, ok,
  err,
}

abbrev pub dot : ℕ
dot = b'.'

abbrev pub hyphen : Text
hyphen = b'-' ∷ []

unfoldable pub rem_trailing_dot : Text → Text
rem_trailing_dot [] = []
rem_trailing_dot (c ∷ []) = if c == dot then [] else c ∷ []
rem_trailing_dot (c ∷ d ∷ s) = c ∷ rem_trailing_dot (d ∷ s)

abbrev pub letter_digit_hyphen_dot : Text
letter_digit_hyphen_dot = codes "ABCDEFGHIJKLMNOPQRSTUVWXYZzabcdefghijklmnopqrstuvwxyz0123456789-."

-- The characters that `find_first_not_of` passes over.
unfoldable pub is_letter_digit_hyphen_dot : ℕ → Bool
is_letter_digit_hyphen_dot = is_member letter_digit_hyphen_dot

abbrev pub fqdn_min_length : ℕ
fqdn_min_length = 1

abbrev pub fqdn_max_length : ℕ
fqdn_max_length = 253

abbrev pub label_min_length : ℕ
label_min_length = 1

abbrev pub label_max_length : ℕ
label_max_length = 63

-- What is thrown: `ExceptionInvalidFqdn`, `ExceptionInvalidLabelCount`.
pub data NameError : Type 0 where
  invalid_fqdn invalid_label_count : NameError

pub record DomainName : Type 0 where
  pub labels : List Text

module _ (b : StringAlgorithms) where
  -- The condition under which the loop over the labels returns false.
  unfoldable pub is_bad_label : Text → Bool
  is_bad_label label =
      ltb (length label) label_min_length
      || ltb label_max_length (length label)
      || b.starts_with label hyphen
      || b.ends_with label hyphen

  unfoldable pub is_rfc1123_compliant_host_name : Text → Bool
  is_rfc1123_compliant_host_name fqdn' =
      let fqdn = rem_trailing_dot fqdn' in
      if ltb (length fqdn) fqdn_min_length || ltb fqdn_max_length (length fqdn)
      then false
      else if any (λ c. not (is_letter_digit_hyphen_dot c)) fqdn
      then false
      else all (λ label. not (is_bad_label label)) (b.split fqdn dot)

  -- `DomainName(const std::string&)` by way of `init(const char*)`.
  unfoldable pub of_string : Text → Result NameError DomainName
  of_string fqdn =
      let temp_fqdn = c_str fqdn in
      if not (is_rfc1123_compliant_host_name temp_fqdn)
      then err invalid_fqdn
      else ok (record { labels = b.split (rem_trailing_dot temp_fqdn) dot })

  unfoldable pub get_string : DomainName → Text
  get_string d = b.join d.labels dot

  unfoldable pub get_subdomains : DomainName → ℤ → Result NameError DomainName
  get_subdomains d (negsuc n) = err invalid_label_count
  get_subdomains d (pos n) =
      if ltb (length d.labels) n
      then err invalid_label_count
      else of_string (b.join (take (length d.labels - n) d.labels) dot)
