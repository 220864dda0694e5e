-- ===== src/PublicRequest/EmailFormat.antt =====
-- `DjangoEmailFormat` (libfred/contact_verification/django_email_format.hh), `get_utf8_char_len`
-- (src/util/idn_utils.cc) and the test of an address in
-- src/libfred/public_request/create_public_request.cc.
use fred_libfred.Common.{
  ℕ, ◌+◌, List, [], ◌∷◌, Text, text_eq, ltb, leb, ◌==◌, any, not, if◌then◌else◌, Bool, true, false,
  ◌&&◌, ◌||◌, Option, none, some,
}

-- A byte that is no continuation, 10xxxxxx.
abbrev pub is_leading : ℕ → Bool
is_leading c = ltb c 128 || leb 192 c

unfoldable pub get_utf8_char_len : Text → ℕ
get_utf8_char_len [] = 0
get_utf8_char_len (c ∷ s) = get_utf8_char_len s + (if is_leading c then 1 else 0)

abbrev pub extend : ℕ → Text → Option (Text × Text) → Option (Text × Text)
extend c s none = if c == b'@' then some ([], s) else none
extend c s (some (user, domain)) = some (c ∷ user, domain)

-- `rfind('@')`: what stands before and after the last one.
unfoldable pub split_at_last : Text → Option (Text × Text)
split_at_last [] = none
split_at_last (c ∷ s) = extend c s (split_at_last s)

-- `matches_user` and `matches_domain` are `boost::regex_match` with the two patterns,
-- `convert_utf8_to_punnycode` is of libidn.
pub record EmailRegex : Type 0 where
  pub matches_user : Text → Bool
  pub matches_domain : Text → Bool
  pub convert_utf8_to_punnycode : Text → Option Text

abbrev pub is_empty : Text → Bool
is_empty [] = true
is_empty (c ∷ s) = false

abbrev pub value_or_default : Option Text → Text
value_or_default none = []
value_or_default (some t) = t

module _ (e : EmailRegex) where
  unfoldable pub check_domain_part : List Text → Text → Bool
  check_domain_part domain_whitelist domain =
      let converted = value_or_default (e.convert_utf8_to_punnycode domain) in
      any (λ w. text_eq w domain) domain_whitelist
      || e.matches_domain domain
      || (not (is_empty converted) && e.matches_domain converted)

  abbrev pub check_parts : List Text → Option (Text × Text) → Bool
  check_parts domain_whitelist none = false
  check_parts domain_whitelist (some (user, domain)) =
      not (is_empty user)
      && (not (is_empty domain)
          && (e.matches_user user && check_domain_part domain_whitelist domain))

  -- `DjangoEmailFormat::check`.
  unfoldable pub check : List Text → Text → Bool
  unfolding split_at_last check_domain_part
  check domain_whitelist email = check_parts domain_whitelist (split_at_last email)

  -- `check_email_address_format`: the address passes.
  unfoldable pub is_email_address : Text → Bool
  unfolding get_utf8_char_len check
  is_email_address email_address =
      not (ltb 255 (get_utf8_char_len email_address)) && check [] email_address
