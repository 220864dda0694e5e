-- ===== src/Boost.antt =====
-- The string algorithms of Boost that the library calls, with the behaviour that it documents.
-- Nothing of Boost is in the repository, so they are a parameter of the code that uses them.
pub mod Parts
pub mod Plain
use fred_libfred.Common.{ℕ, ◌≡◌, ◌≢◌, ◌↔◌, List, [], ◌∷◌, ◌++◌, Text, All, Bool, true}
use Parts.{Lacks, glue, cut, cut-glue}

pub record StringAlgorithms : Type 0 where
  -- `boost::split(parts, text, boost::is_any_of(d))` for one separator, with no token compression
  pub split : Text → ℕ → List Text
  -- `boost::join(parts, d)` for a separator of one character
  pub join : List Text → ℕ → Text
  pub starts_with : Text → Text → Bool
  pub ends_with : Text → Text → Bool
  pub split-ne-nil : (s : Text) (d : ℕ) → split s d ≢ []
  pub split-Lacks : (s : Text) (d : ℕ) → All (Lacks d) (split s d)
  pub join-split : (s : Text) (d : ℕ) → join (split s d) d ≡ s
  pub join-glue : (ps : List Text) (d : ℕ) → join ps d ≡ glue ps d
  pub starts_with_iff : (s t : Text) → (starts_with s t ≡ true) ↔ ((rest : Text) × (s ≡ t ++ rest))
  pub ends_with_iff : (s t : Text) → (ends_with s t ≡ true) ↔ ((init : Text) × (s ≡ init ++ t))

module _ (b : StringAlgorithms) where
  -- The documented laws leave one possible result.
  pub split-cut : (s : Text) (d : ℕ) → b.split s d ≡ cut s d
  split-cut s d = cc (
    cut-glue (b.split s d) d (b.split-ne-nil s d) (b.split-Lacks s d),
    b.join-split s d,
    b.join-glue (b.split s d) d,
  )

-- `boost::regex_match` and `boost::regex_search` of a text, and a pattern in its syntax.
pub record RegexEngine : Type 0 where
  pub regex_match : Text → Text → Bool
  pub regex_search : Text → Text → Bool
