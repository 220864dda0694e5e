-- ===== src/Contact/Merge.antt =====
-- `MergeContactSelection::exec` (src/libfred/registrable_object/contact/merge_contact_selection.cc).
pub mod Selection
pub mod Maximum
mod Tests
use fred_libfred.Boost.{RegexEngine}
use fred_libfred.Common.{
  ◌≡◌, List, [], ◌∷◌, Text, if◌then◌else◌, Bool, true, false, Result, ok, err, ◌>>=◌, ◌>>◌, guard,
  not,
}
use fred_libfred.Util.Factory.{Factory, FactoryError, has_key, at}
use fred_libfred.Contact.Tables.{ContactDb, ContactSql}
use fred_libfred.Contact.Filters.{Filter, apply, get_default_contact_selection_filter_factory}

pub data MergeError : Type 0 where
  no_contact_handles : MergeError
  no_contact_handles_left : MergeError
  too_many_contact_handles_left : MergeError
  factory_error : FactoryError → MergeError

pub record MergeContactSelectionOutput : Type 0 where
  pub handle : Text
  pub filter : Text

abbrev pub lift {ℓ} : {A : Type ℓ} → Result FactoryError A → Result MergeError A
lift (ok a) = ok a
lift (err e) = err (factory_error e)

abbrev pub is_empty : List Text → Bool
is_empty [] = true
is_empty (h ∷ hs) = false

module _ (r : RegexEngine) (q : ContactSql) (db : ContactDb) (factory : Factory Filter) where
  -- The loop over the filters, then what follows it.
  unfoldable pub select : List Text → List Text → Result MergeError MergeContactSelectionOutput
  select [] contact_handles =
      if is_empty contact_handles
      then err no_contact_handles_left
      else err too_many_contact_handles_left
  select (filter_name ∷ filters) contact_handles = elim (has_key factory filter_name) [
    | false ↦ select filters contact_handles
    | true ↦ do
      filter ← lift (at factory filter_name)
      elim (apply r q db filter contact_handles) [
        | [] ↦ select filters contact_handles
        | h ∷ hs ↦ elim hs [
          | [] ↦ ok (record { handle = h; filter = filter_name })
          | h' ∷ more ↦ select filters (h ∷ h' ∷ more)
        ]
      ]
  ]

module _ (r : RegexEngine) (q : ContactSql) (db : ContactDb) where
  unfoldable pub exec : List Text → List Text → Result MergeError MergeContactSelectionOutput
  exec contact_handles filters = do
    guard (not (is_empty contact_handles)) no_contact_handles
    factory ← lift get_default_contact_selection_filter_factory
    select r q db factory filters contact_handles
