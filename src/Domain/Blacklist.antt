-- ===== src/Domain/Blacklist.antt =====
-- `CreateDomainNameBlacklistId` (src/libfred/registrable_object/domain/
-- create_domain_name_blacklist_id.cc) over the rows of `domain_blacklist`. Times are counted from
-- some moment before all of them; SQL `LOWER` is a parameter.
pub mod Patterns
pub mod Intervals
mod Tests
use fred_libfred.Common.{
  ℕ, ◌≡◌, List, [], ◌∷◌, ◌++◌, Text, codes, text_eq, ltb, leb, ◌==◌, any, if◌then◌else◌, Bool, true,
  false, not, ◌&&◌, ◌||◌, Result, ok, err, guard, ◌>>=◌, ◌>>◌, Option, none, some,
}
use fred_libfred.ObjectState.{ObjectRow}
use fred_libfred.ObjectState.StateIds.{find_object}

-- A row of `domain_blacklist`.
pub record BlacklistRow : Type 0 where
  pub regexp : Text
  pub reason : Text
  pub valid_from : ℕ
  pub valid_to : Option ℕ

-- What `exec` throws.
pub data BlacklistError : Type 0 where
  out_of_turn : BlacklistError
  object_id_not_found : ℕ → BlacklistError
  already_blacklisted_domain : ℕ → BlacklistError

pub record CreateDomainNameBlacklistId : Type 0 where
  pub object_id : ℕ
  pub reason : Text
  pub valid_from : Option ℕ
  pub valid_to : Option ℕ

unfoldable pub set_valid_from : ℕ → CreateDomainNameBlacklistId → CreateDomainNameBlacklistId
set_valid_from from op = record op { valid_from = some from }

unfoldable pub set_valid_to : ℕ → CreateDomainNameBlacklistId → CreateDomainNameBlacklistId
set_valid_to to op = record op { valid_to = some to }

-- `t < valid_to OR valid_to IS NULL`
abbrev pub ends_after : ℕ → Option ℕ → Bool
ends_after t none = true
ends_after t (some to) = ltb t to

-- One character: a dot gets a backslash.
abbrev pub quote_char : ℕ → Text
quote_char c = if c == b'.' then b'\\' ∷ c ∷ [] else c ∷ []

-- The loop over the characters.
unfoldable pub quote : Text → Text
quote [] = []
quote (c ∷ fqdn) = quote_char c ++ quote fqdn

unfoldable pub fqdn_to_regexp : Text → Text
fqdn_to_regexp fqdn = codes "^" ++ quote fqdn ++ codes "$"

-- The check of the times.
unfoldable pub is_out_of_turn : ℕ → Option ℕ → Option ℕ → Bool
is_out_of_turn now from none = false
is_out_of_turn now (some from) (some to) = ltb to from
is_out_of_turn now none (some to) = ltb to now

module _ (lower : Text → Text) (now : ℕ) where
  -- The `WHERE` of the four queries.
  unfoldable pub is_in_the_way : Text → Option ℕ → Option ℕ → BlacklistRow → Bool
  is_in_the_way domain (some from) (some to) r =
      text_eq (lower r.regexp) (lower domain) && ends_after from r.valid_to && leb r.valid_from to
  is_in_the_way domain (some from) none r =
      text_eq (lower r.regexp) (lower domain) && ends_after from r.valid_to
  is_in_the_way domain none (some to) r =
      text_eq (lower r.regexp) (lower domain) && ends_after now r.valid_to && leb r.valid_from to
  is_in_the_way domain none none r =
      text_eq (lower r.regexp) (lower domain) && ends_after now r.valid_to

  unfoldable pub is_blacklisted : List BlacklistRow → Text → Option ℕ → Option ℕ → Bool
  is_blacklisted rows domain from to = any (is_in_the_way domain from to) rows

  abbrev pub from_or_now : Option ℕ → ℕ
  from_or_now none = now
  from_or_now (some from) = from

  abbrev pub new_row : CreateDomainNameBlacklistId → Text → BlacklistRow
  new_row op domain_regexp = record {
    regexp = domain_regexp;
    reason = op.reason;
    valid_from = from_or_now op.valid_from;
    valid_to = op.valid_to;
  }

  abbrev pub object_name : ℕ → Option ObjectRow → Result BlacklistError Text
  object_name object_id none = err (object_id_not_found object_id)
  object_name object_id (some o) = ok o.name

  -- `exec`: the rows of the table after it. `registry` are the objects that are not erased.
  unfoldable pub create_domain_name_blacklist_id :
      List ObjectRow
      → List BlacklistRow
      → CreateDomainNameBlacklistId
      → Result BlacklistError (List BlacklistRow)
  create_domain_name_blacklist_id registry rows op = do
    guard (not (is_out_of_turn now op.valid_from op.valid_to)) out_of_turn
    name ← object_name op.object_id (find_object op.object_id registry)
    let domain_regexp = fqdn_to_regexp name
    guard (not (is_blacklisted rows domain_regexp op.valid_from op.valid_to))
        (already_blacklisted_domain op.object_id)
    ok (rows ++ new_row op domain_regexp ∷ [])
