-- ===== src/Util/Factory.antt =====
-- `Util::Factory` (src/util/factory.hh) with keys of type `std::string`, and the checks of its keys
-- (src/util/factory_check.hh). The map is a list of its entries; its order by key is not modelled,
-- and nothing here depends on it.
pub mod Laws
use fred_libfred.Common.{
  List, [], ◌∷◌, ◌++◌, Text, text_eq, all, any, if◌then◌else◌, Bool, true, false, Result, ok, err,
  guard, ◌>>=◌, ◌>>◌, Option, none, some,
}

-- `std::runtime_error{"uniqueness constraint violation"}`, `std::out_of_range`, and the
-- `std::runtime_error` of the two `require`.
pub data FactoryError : Type 0 where
  uniqueness_violation not_registered key_missing : FactoryError

pub record Factory {ℓ} (P : Type ℓ) : Type ℓ where
  pub key_producer_map : List (Text × P)

module _ {ℓ} {P : Type ℓ} where
  unfoldable pub find : Text → List (Text × P) → Option P
  find k [] = none
  find k ((j, p) ∷ m) = if text_eq j k then some p else find k m

  abbrev pub is_some : Option P → Bool
  is_some none = false
  is_some (some p) = true

  unfoldable pub has_key : Factory P → Text → Bool
  has_key f k = is_some (find k f.key_producer_map)

  unfoldable pub add_producer : Text × P → Factory P → Result FactoryError (Factory P)
  unfolding has_key
  add_producer (k, p) f =
      if has_key f k
      then err uniqueness_violation
      else ok (record { key_producer_map = f.key_producer_map ++ (k, p) ∷ [] })

  abbrev pub or_not_registered : Option P → Result FactoryError P
  or_not_registered none = err not_registered
  or_not_registered (some p) = ok p

  -- `operator[]`.
  unfoldable pub at : Factory P → Text → Result FactoryError P
  at f k = or_not_registered (find k f.key_producer_map)

  unfoldable pub is_each_factory_key_in_superset : Factory P → List Text → Bool
  is_each_factory_key_in_superset f superset =
      all (λ entry. any (λ k. text_eq k entry.0) superset) f.key_producer_map

  unfoldable pub is_each_key_in_factory : Factory P → List Text → Bool
  is_each_key_in_factory f = all (λ k. any (λ entry. text_eq entry.0 k) f.key_producer_map)

  -- `FactoryHaveSubsetOfKeys::require`.
  unfoldable pub require_subset : Factory P → List Text → Result FactoryError (Unit {0})
  unfolding is_each_factory_key_in_superset
  require_subset f superset = guard (is_each_factory_key_in_superset f superset) key_missing

  -- `FactoryHaveSupersetOfKeys::require`.
  unfoldable pub require_superset : Factory P → List Text → Result FactoryError (Unit {0})
  unfolding is_each_key_in_factory
  require_superset f subset = guard (is_each_key_in_factory f subset) key_missing

abbrev pub empty {ℓ} : {P : Type ℓ} → Factory P
empty = record { key_producer_map = [] }
