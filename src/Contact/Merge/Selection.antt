-- ===== src/Contact/Merge/Selection.antt =====
-- The contact that is selected is one of those given.
use fred_libfred.Boost.{RegexEngine}
use fred_libfred.Common.{
  ◌≡◌, ◌≢◌, refl, ap, ◌∙◌, ◌⊎◌, inl, inr, List, [], ◌∷◌, arith, Text, All, All_mono, true,
  Bool-cases, Result, ok, err,
}
use fred_libfred.Util.Factory.{Factory, has_key, at, find, add_producer}
use fred_libfred.Util.Factory.Laws.{at-has_key}
use fred_libfred.Contact.Tables.{ContactDb, ContactSql}
use fred_libfred.Contact.Filters.{
  Filter, apply, get_default_contact_selection_filter_factory, identified_contact,
  identity_attached, conditionally_identified_contact, handle_mojeid_syntax, max_domains_bound,
  max_objects_bound, recently_updated, not_regcznic, recently_created,
  mcs_filter_identified_contact, mcs_filter_identity_attached,
  mcs_filter_conditionally_identified_contact, mcs_filter_handle_mojeid_syntax,
  mcs_filter_max_domains_bound, mcs_filter_max_objects_bound, mcs_filter_recently_updated,
  mcs_filter_not_regcznic, mcs_filter_recently_created,
}
use fred_libfred.Contact.Filters.Handles.{IsContactSql, apply-All}
use fred_libfred.Contact.Merge.{
  MergeError, MergeContactSelectionOutput, too_many_contact_handles_left, select, exec,
}

abbrev pub Among : Text → List Text → Type 0
Among x [] = ⊥
Among x (y ∷ ys) = (x ≡ y) ⊎ Among x ys

module _ (r : RegexEngine) (q : ContactSql) (laws : IsContactSql q) (db : ContactDb) where
  -- A handle that was given, as it was given or in upper case.
  abbrev pub From : List Text → Text → Type 0
  From handles x = (h : Text) × Among h handles × ((x ≡ h) ⊎ (x ≡ q.upper h))

  From-upper : (handles : List Text) (s : Text) → From handles s → From handles (q.upper s)
  From-upper handles s (h, m, inl e) = (h, m, inr (ap q.upper e))
  From-upper handles s (h, m, inr e) = (h, m, inr (ap q.upper e ∙ laws.upper_upper h))

  all-From : (handles : List Text) → All (From handles) handles
  all-From [] = tt
  all-From (x ∷ xs) =
      ((x, inl refl, inl refl), All_mono xs (λ s (h, m, e). (h, inr m, e)) (all-From xs))

  module _ (factory : Factory Filter) (handles : List Text) where
    -- A handle is selected, by a registered filter of the list; or too many are left.
    abbrev pub Selected : List Text → Result MergeError MergeContactSelectionOutput → Type 0
    Selected filters m =
        ((out : MergeContactSelectionOutput) × (m ≡ ok out)
          × From handles out.handle
          × Among out.filter filters
          × (has_key factory out.filter ≡ true))
        ⊎ (m ≡ err too_many_contact_handles_left)

    later :
        (n : Text) (fs : List Text) {m m' : Result MergeError MergeContactSelectionOutput}
        → m' ≡ m
        → Selected fs m
        → Selected (n ∷ fs) m'
    later n fs e (inl (out, made, from, among, known)) = inl (out, e ∙ made, from, inr among, known)
    later n fs e (inr made) = inr (e ∙ made)

    -- One registered filter, from the handles that it leaves.
    step :
        (n : Text) (fs : List Text) (f : Filter) (h : Text) (hs left : List Text)
        → has_key factory n ≡ true
        → at factory n ≡ ok f
        → apply r q db f (h ∷ hs) ≡ left
        → All (From handles) left
        → Selected fs (select r q db factory fs (h ∷ hs))
        → ((h' : Text) (hs' : List Text)
            → All (From handles) (h' ∷ hs')
            → Selected fs (select r q db factory fs (h' ∷ hs')))
        → Selected (n ∷ fs) (select r q db factory (n ∷ fs) (h ∷ hs))
    unfolding select
    step n fs f h hs [] k e left a same more = later n fs (ground arith) same
    step n fs f h hs (x ∷ []) k e left (from, _) same more =
        inl (_, ground arith, from, inl refl, k)
    step n fs f h hs (x ∷ y ∷ xs) k e left a same more =
        later n fs (ground arith) (more x (y ∷ xs) a)

    select-Selected :
        (fs : List Text) (h : Text) (hs : List Text)
        → All (From handles) (h ∷ hs)
        → Selected fs (select r q db factory fs (h ∷ hs))
    unfolding select
    select-Selected [] h hs a = inr refl
    select-Selected (n ∷ fs) h hs a = elim (Bool-cases (has_key factory n)) [
      | inr unknown ↦ later n fs (rw (unknown, select) refl) (select-Selected fs h hs a)
      | inl known ↦
          let (f, e) = at-has_key factory n known in
          step n fs f h hs (apply r q db f (h ∷ hs)) known e refl
            (apply-All r q laws db (From handles) (From-upper handles) f h hs a)
            (select-Selected fs h hs a) (select-Selected fs)
    ]

  abbrev pub default_factory : Factory Filter
  default_factory = record {
    key_producer_map =
        (mcs_filter_identified_contact, identified_contact)
        ∷ (mcs_filter_identity_attached, identity_attached)
        ∷ (mcs_filter_conditionally_identified_contact, conditionally_identified_contact)
        ∷ (mcs_filter_handle_mojeid_syntax, handle_mojeid_syntax)
        ∷ (mcs_filter_max_domains_bound, max_domains_bound)
        ∷ (mcs_filter_max_objects_bound, max_objects_bound)
        ∷ (mcs_filter_recently_updated, recently_updated)
        ∷ (mcs_filter_not_regcznic, not_regcznic)
        ∷ (mcs_filter_recently_created, recently_created)
        ∷ [];
  }

  factory_made : get_default_contact_selection_filter_factory ≡ ok default_factory
  unfolding get_default_contact_selection_filter_factory add_producer find
  factory_made = refl

  -- With one handle or more, where UPPER twice is UPPER and the order and the limit of a query
  -- leave rows of the table, exec answers with a handle that was given, as it was given or in
  -- upper case, and with a registered filter of the list, or throws that too many handles are
  -- left; it never throws that none is left.
  pub exec-Selected :
      (handles filters : List Text)
      → handles ≢ []
      → Selected default_factory handles filters (exec r q db handles filters)
  unfolding exec
  exec-Selected [] filters ne = absurd (ne refl)
  exec-Selected (h ∷ hs) filters ne =
      rw factory_made (select-Selected default_factory (h ∷ hs) filters h hs (all-From (h ∷ hs)))
