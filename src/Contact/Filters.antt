-- ===== src/Contact/Filters.antt =====
-- The filters of a selection of contacts (src/libfred/registrable_object/contact/
-- merge_contact_selection.cc) over the tables that their queries read. A row of a table of contacts
-- of domains, nssets or keysets refers to a row of its object. Times are numbers, and two of them are
-- printed alike exactly if they are equal.
pub mod Handles
use fred_libfred.Boost.{RegexEngine}
use fred_libfred.Common.{
  ℕ, ◌+◌, ◌≡◌, List, [], ◌∷◌, ◌++◌, map, Text, codes, text_eq, length, leb, ◌==◌, any, filter,
  if◌then◌else◌, Bool, true, false, not, ◌&&◌, ◌||◌, Option, none, some, Result, ◌>>=◌, ok,
}
use fred_libfred.Util.Factory.{Factory, FactoryError, add_producer, empty}
use fred_libfred.Contact.Tables.{
  ContactRow, StateRow, DomainRow, ContactMapRow, ObjectRow, ContactDb, ContactSql,
}

-- The classes derived from `ContactSelectionFilter`.
pub data Filter : Type 0 where
  identified_contact identity_attached conditionally_identified_contact : Filter
  handle_mojeid_syntax max_domains_bound max_objects_bound : Filter
  recently_updated not_regcznic recently_created : Filter

abbrev pub mcs_filter_identified_contact : Text
mcs_filter_identified_contact = codes "mcs_filter_identified_contact"

abbrev pub mcs_filter_identity_attached : Text
mcs_filter_identity_attached = codes "mcs_filter_identity_attached"

abbrev pub mcs_filter_conditionally_identified_contact : Text
mcs_filter_conditionally_identified_contact = codes "mcs_filter_conditionally_identified_contact"

abbrev pub mcs_filter_handle_mojeid_syntax : Text
mcs_filter_handle_mojeid_syntax = codes "mcs_filter_handle_mojeid_syntax"

abbrev pub mcs_filter_max_domains_bound : Text
mcs_filter_max_domains_bound = codes "mcs_filter_max_domains_bound"

abbrev pub mcs_filter_max_objects_bound : Text
mcs_filter_max_objects_bound = codes "mcs_filter_max_objects_bound"

abbrev pub mcs_filter_recently_updated : Text
mcs_filter_recently_updated = codes "mcs_filter_recently_updated"

abbrev pub mcs_filter_not_regcznic : Text
mcs_filter_not_regcznic = codes "mcs_filter_not_regcznic"

abbrev pub mcs_filter_recently_created : Text
mcs_filter_recently_created = codes "mcs_filter_recently_created"

abbrev pub mojeid_handle_syntax : Text
mojeid_handle_syntax = codes "^[a-z0-9](-?[a-z0-9])*$"

-- The loop over ordered rows, which ends at the first that differs from the first row.
unfoldable pub same_as_first : ℕ → List (Text × ℕ) → List Text
same_as_first best [] = []
same_as_first best ((handle, n) ∷ rows) =
    let rest = same_as_first best rows in if best == n then handle ∷ rest else []

unfoldable pub best_handles : List (Text × ℕ) → List Text
best_handles [] = []
best_handles ((handle, n) ∷ rows) = same_as_first n ((handle, n) ∷ rows)

module _ (r : RegexEngine) (q : ContactSql) (db : ContactDb) where
  -- The rows of the query for a handle and a state.
  abbrev pub state_count : Text → ContactRow → ℕ
  state_count state c =
      length (filter (λ s. s.object_id == c.id && text_eq s.name state) db.object_state)

  abbrev pub sum_over : (ContactRow → ℕ) → List ContactRow → ℕ
  sum_over f [] = 0
  sum_over f (c ∷ cs) = f c + sum_over f cs

  unfoldable pub has_state : Text → Text → Bool
  has_state state handle =
      sum_over (state_count state) (filter (λ c. text_eq c.name handle) db.contact) == 1

  unfoldable pub has_identity : Text → Bool
  has_identity handle =
      sum_over (λ c. length (filter (λ i. i == c.id) db.contact_identity))
        (filter (λ c. text_eq c.name (q.upper handle)) db.contact)
      == 1

  unfoldable pub has_mojeid_syntax : Text → Bool
  has_mojeid_syntax handle =
      r.regex_match (q.to_lower_copy handle) mojeid_handle_syntax && leb (length handle) 30

  -- `WHERE oreg.name = UPPER($1) OR …`
  abbrev pub is_listed : List Text → ContactRow → Bool
  is_listed handles c = any (λ h. text_eq c.name (q.upper h)) handles

  abbrev pub listed : List Text → List ContactRow
  listed handles = filter (is_listed handles) db.contact

  abbrev pub domain_registrant_count : ContactRow → ℕ
  domain_registrant_count c = length (filter (λ d. d.registrant == c.id) db.domain)

  abbrev pub domain_admin_count : ContactRow → ℕ
  domain_admin_count c =
      length (filter (λ m. m.contact_id == c.id && m.role == 1) db.domain_contact_map)

  abbrev pub tech_count : List ContactMapRow → ContactRow → ℕ
  tech_count ms c = length (filter (λ m. m.contact_id == c.id) ms)

  unfoldable pub all_domains_count : ContactRow → ℕ
  all_domains_count c = domain_registrant_count c + domain_admin_count c

  unfoldable pub all_objects_count : ContactRow → ℕ
  all_objects_count c =
      domain_registrant_count c
      + domain_admin_count c
      + tech_count db.nsset_contact_map c
      + tech_count db.keyset_contact_map c

  abbrev pub counted : (ContactRow → ℕ) → List ContactRow → List (Text × ℕ)
  counted count cs = map (λ c. (c.name, count c)) cs

  unfoldable pub filter_max : (ContactRow → ℕ) → List Text → List Text
  filter_max count [] = []
  filter_max count (h ∷ hs) = best_handles (q.order_by_desc (counted count (listed (h ∷ hs))))

  -- The updates of a contact, of which a row of `object` holds at most one.
  abbrev pub updates_of : ContactRow → List ObjectRow → List (Text × ℕ)
  updates_of c [] = []
  updates_of c (o ∷ os) =
      let rest = updates_of c os in
      elim o.update [ none ↦ rest | some t ↦ if o.id == c.id then (c.name, t) ∷ rest else rest ]

  abbrev pub all_updates : List ContactRow → List (Text × ℕ)
  all_updates [] = []
  all_updates (c ∷ cs) = updates_of c db.object ++ all_updates cs

  unfoldable pub filter_recently_updated : List Text → List Text
  filter_recently_updated [] = []
  filter_recently_updated (h ∷ hs) = best_handles (q.order_by_desc (all_updates (listed (h ∷ hs))))

  -- The registrars of a contact other than REG-CZNIC, of which there is at most one.
  abbrev pub other_registrars : ContactRow → List Text
  other_registrars c =
      map (λ o. c.name)
        (filter (λ o. o.id == c.id && not (text_eq o.registrar (codes "REG-CZNIC"))) db.object)

  abbrev pub all_other_registrars : List ContactRow → List Text
  all_other_registrars [] = []
  all_other_registrars (c ∷ cs) = other_registrars c ++ all_other_registrars cs

  -- Without handles the query has no `WHERE`.
  unfoldable pub filter_not_regcznic : List Text → List Text
  filter_not_regcznic [] = all_other_registrars db.contact
  filter_not_regcznic (h ∷ hs) = all_other_registrars (listed (h ∷ hs))

  abbrev pub name_of : Option ContactRow → List Text
  name_of none = []
  name_of (some c) = c.name ∷ []

  unfoldable pub filter_recently_created : List Text → List Text
  filter_recently_created [] = []
  filter_recently_created (h ∷ hs) = name_of (q.last_created (listed (h ∷ hs)))

  -- `operator()` of each class.
  unfoldable pub apply : Filter → List Text → List Text
  apply identified_contact handles = filter (has_state (codes "identifiedContact")) handles
  apply identity_attached handles = filter has_identity handles
  apply conditionally_identified_contact handles =
      filter (has_state (codes "conditionallyIdentifiedContact")) handles
  apply handle_mojeid_syntax handles = filter has_mojeid_syntax handles
  apply max_domains_bound handles = filter_max all_domains_count handles
  apply max_objects_bound handles = filter_max all_objects_count handles
  apply recently_updated handles = filter_recently_updated handles
  apply not_regcznic handles = filter_not_regcznic handles
  apply recently_created handles = filter_recently_created handles

unfoldable pub get_default_contact_selection_filter_factory : Result FactoryError (Factory Filter)
get_default_contact_selection_filter_factory =
    add_producer (mcs_filter_identified_contact, identified_contact) empty
    >>= add_producer (mcs_filter_identity_attached, identity_attached)
    >>= add_producer (mcs_filter_conditionally_identified_contact, conditionally_identified_contact)
    >>= add_producer (mcs_filter_handle_mojeid_syntax, handle_mojeid_syntax)
    >>= add_producer (mcs_filter_max_domains_bound, max_domains_bound)
    >>= add_producer (mcs_filter_max_objects_bound, max_objects_bound)
    >>= add_producer (mcs_filter_recently_updated, recently_updated)
    >>= add_producer (mcs_filter_not_regcznic, not_regcznic)
    >>= add_producer (mcs_filter_recently_created, recently_created)
