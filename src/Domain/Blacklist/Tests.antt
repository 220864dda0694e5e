-- ===== src/Domain/Blacklist/Tests.antt =====
-- Runs of the entry of a name into the blacklist.
use fred_libfred.Common.{
  ℕ, Text, Bool, true, false, ◌==◌, if◌then◌else◌, ◌&&◌, inl, inr, ◌≡◌, ◌↔◌, refl, [], ◌∷◌, ◌++◌,
  arith, codes, All, ok, err, none, some,
}
use fred_libfred.ObjectState.{ObjectRow}
use fred_libfred.ObjectState.StateIds.{find_object}
use fred_libfred.Domain.Blacklist.{
  BlacklistRow, CreateDomainNameBlacklistId, is_out_of_turn, is_in_the_way, is_blacklisted, new_row,
  quote, fqdn_to_regexp, create_domain_name_blacklist_id, already_blacklisted_domain,
  set_valid_from, set_valid_to,
}
use fred_libfred.Domain.Blacklist.Patterns.{IsPatternMatch, same_text, fqdn_to_regexp-matches}
use fred_libfred.Domain.Name.Characters.{IsLdh}
use fred_libfred.Domain.Blacklist.Intervals.{Ordered, Room, Exclusive, create_iff, create-Exclusive}

pattern_of_name : fqdn_to_regexp (codes "nic.cz") ≡ codes "^nic\\.cz$"
unfolding fqdn_to_regexp quote
pattern_of_name = refl

-- An operator for the patterns of names, with the case.
abbrev rest_of : Text → Text → Bool
rest_of t [] = true
rest_of [] (c ∷ []) = c == b'$'
rest_of (d ∷ t) (c ∷ []) = if c == b'$' then false else d == c
rest_of [] (c ∷ e ∷ p) = false
rest_of (d ∷ t) (c ∷ e ∷ p) =
    let later = rest_of t p in
    let next = rest_of t (e ∷ p) in if c == b'\\' then d == e && later else d == c && next

abbrev matches_from_start : Text → Text → Bool
matches_from_start t [] = true
matches_from_start t (c ∷ p) = rest_of t p

ldh_plain : (d : ℕ) → IsLdh d → ((d == b'$') ≡ false) × ((d == b'\\') ≡ false)
ldh_plain d h = (ground arith, ground arith)

plain_rest : (c d : ℕ) (t p : Text) → IsLdh d → rest_of (c ∷ t) (d ∷ p) ≡ (c == d && rest_of t p)
plain_rest c d t [] h = let (x, y) = ldh_plain d h in rw x (ground arith)
plain_rest c d t (e ∷ p) h = let (x, y) = ldh_plain d h in rw y refl

plain_ends : (d : ℕ) (p : Text) → IsLdh d → rest_of [] (d ∷ p) ≡ false
plain_ends d [] h = (ldh_plain d h).0
plain_ends d (e ∷ p) h = refl

matches-IsPatternMatch : IsPatternMatch matches_from_start
matches-IsPatternMatch = record {
  same = λ c d. c == d;
  rest = rest_of;
  from_start = λ t p h. refl;
  at_end = refl;
  before_end = λ c t. refl;
  plain = λ c d t p h s. plain_rest c d t p h;
  plain_at_end = λ d p h s. plain_ends d p h;
  escaped = λ c t p s. refl;
  escaped_at_end = λ p s. refl;
}

fqdn_to_regexp-matches_example :
    matches_from_start (codes "a-z") (fqdn_to_regexp (codes "a.z"))
    ≡ same_text (λ c d. c == d) (codes "a-z") (codes "a.z")
unfolding matches-IsPatternMatch
fqdn_to_regexp-matches_example =
    fqdn_to_regexp-matches matches_from_start matches-IsPatternMatch (codes "a.z") (codes "a-z")
      (inl (omega arith), (inr refl, (inl (omega arith), tt)))

abbrev nic : ObjectRow
nic = record { id = 5; type = 3; name = codes "nic.cz" }

abbrev op : CreateDomainNameBlacklistId
op = record { object_id = 5; reason = codes "x"; valid_from = none; valid_to = some 30 }

abbrev op_2 : CreateDomainNameBlacklistId
op_2 = record op { valid_from = some 31; valid_to = none }

abbrev row : BlacklistRow
row = record {
  regexp = codes "^nic\\.cz$";
  reason = codes "x";
  valid_from = 10;
  valid_to = some 30;
}

abbrev row_2 : BlacklistRow
row_2 = record row { valid_from = 31; valid_to = none }

made :
    create_domain_name_blacklist_id (λ s. s) 10 (nic ∷ []) (row ∷ []) op_2 ≡ ok (row ∷ row_2 ∷ [])
unfolding create_domain_name_blacklist_id is_out_of_turn find_object fqdn_to_regexp quote
    is_blacklisted is_in_the_way
made = refl

-- An interval that starts where the other ends is refused if it is the earlier one.
touching :
    create_domain_name_blacklist_id
      (λ s. s)
      10
      (nic ∷ [])
      (row_2 ∷ [])
      (set_valid_to 31 (set_valid_from 20 op))
    ≡ err (already_blacklisted_domain 5)
unfolding create_domain_name_blacklist_id is_out_of_turn find_object fqdn_to_regexp quote
    is_blacklisted is_in_the_way set_valid_from set_valid_to
touching = refl

create_iff_example :
    (create_domain_name_blacklist_id (λ s. s) 10 (nic ∷ []) (row ∷ []) op_2 ≡ ok (row ∷ row_2 ∷ []))
    ↔ (Ordered 31 none
        × (o : ObjectRow) × (find_object 5 (nic ∷ []) ≡ some o)
        × All (Room (λ s. s) 10 (new_row (λ s. s) 10 op_2 (fqdn_to_regexp o.name))) (row ∷ [])
        × (row ∷ row_2 ∷ [] ≡ (row ∷ []) ++ new_row (λ s. s) 10 op_2 (fqdn_to_regexp o.name) ∷ []))
create_iff_example = create_iff (λ s. s) 10 (nic ∷ []) (row ∷ []) op_2 (row ∷ row_2 ∷ [])

create-Exclusive_example : Exclusive (λ s. s) (row ∷ row_2 ∷ [])
create-Exclusive_example = create-Exclusive (λ s. s) 10 (nic ∷ []) (row ∷ []) op_2 (tt, tt) made
