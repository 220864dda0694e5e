-- ===== src/Util/ParamQuery.antt =====
-- `Database::ParamQuery` (src/util/db/param_query_composition.cc): a query put together from text and
-- parameters. `V` is `Database::QueryParam`; a reusable parameter is known by the address that its
-- `shared_ptr` holds, a number here; `decimal` prints a number (`query_param_list::add`).
pub mod Positions
pub mod Once
use fred_libfred.Common.{
  ℕ, ◌+◌, ◌≡◌, List, [], ◌∷◌, ◌++◌, Text, codes, length, ◌==◌, if◌then◌else◌, Result, ok, err,
  ◌>>=◌, Option, none, some,
}

-- `std::runtime_error` of `get_query`.
pub data QueryError : Type 0 where
  insert_failed unknown_tag : QueryError

module _ (V : Type 0) where
  -- `ReusableParameter`.
  pub record ReusableParameter : Type 0 where
    pub lid : ℕ
    pub type : Text
    pub value : V

  -- `ParamQuery::Element`, by its tag.
  pub data Element : Type 0 where
    pqe_none : Element
    pqe_string : Text → Element
    pqe_param : V → Text → Element
    pqe_param_repeatable : V → Text → ℕ → Element

  abbrev pub ParamQuery : Type 0
  ParamQuery = List Element

  pub record Query : Type 0 where
    pub sql : Text
    pub params : List V

  -- `operator()(const std::string&)`.
  unfoldable pub add_text : Text → ParamQuery → ParamQuery
  add_text val q = q ++ pqe_string val ∷ []

  -- `operator()(const ParamQuery&)`.
  unfoldable pub add_query : ParamQuery → ParamQuery → ParamQuery
  add_query val q = q ++ val

  -- `param(const QueryParam&, const std::string&)`.
  unfoldable pub param : V → Text → ParamQuery → ParamQuery
  param val pg_typname q = q ++ pqe_param val pg_typname ∷ []

  unfoldable pub param_bigint : V → ParamQuery → ParamQuery
  unfolding param
  param_bigint val = param val (codes "bigint")

  unfoldable pub param_text : V → ParamQuery → ParamQuery
  unfolding param
  param_text val = param val (codes "text")

  unfoldable pub param_uuid : V → ParamQuery → ParamQuery
  unfolding param
  param_uuid val = param val (codes "uuid")

  unfoldable pub param_numeric : V → ParamQuery → ParamQuery
  unfolding param
  param_numeric val = param val (codes "numeric")

  unfoldable pub param_timestamp : V → ParamQuery → ParamQuery
  unfolding param
  param_timestamp val = param val (codes "timestamp")

  unfoldable pub param_date : V → ParamQuery → ParamQuery
  unfolding param
  param_date val = param val (codes "date")

  unfoldable pub param_bool : V → ParamQuery → ParamQuery
  unfolding param
  param_bool val = param val (codes "bool")

  -- `param(const ReusableParameter&)`.
  unfoldable pub param_reusable : ReusableParameter → ParamQuery → ParamQuery
  param_reusable p q = q ++ pqe_param_repeatable p.value p.type p.lid ∷ []

  -- `param_lid_position` maps a parameter to its position.
  abbrev pub Positions : Type 0
  Positions = List (ℕ × ℕ)

  abbrev pub position_of : ℕ → Positions → Option ℕ
  position_of lid [] = none
  position_of lid ((l, k) ∷ m) = if l == lid then some k else position_of lid m

  module _ (decimal : ℕ → Text) where
    -- A placeholder, `$1::type`.
    abbrev pub placeholder : ℕ → Text → Text
    placeholder pos pg_typname = codes "$" ++ (decimal pos ++ (codes "::" ++ pg_typname))

    -- The loop over the elements.
    unfoldable pub compose : List Element → Query → Positions → Result QueryError Query
    compose [] query positions = ok query
    compose (pqe_none ∷ es) query positions = err unknown_tag
    compose (pqe_string s ∷ es) query positions =
        compose es (record query { sql = query.sql ++ s }) positions
    compose (pqe_param v t ∷ es) query positions =
        let pos = length query.params + 1 in
        compose es
          (record { sql = query.sql ++ placeholder pos t; params = query.params ++ v ∷ [] })
          positions
    compose (pqe_param_repeatable v t lid ∷ es) query positions =
        let pos = length query.params + 1 in
        elim (position_of lid positions) [
          | some k ↦ compose es (record query { sql = query.sql ++ placeholder k t }) positions
          | none ↦
              compose es
                (record { sql = query.sql ++ placeholder pos t; params = query.params ++ v ∷ [] })
                ((lid, pos) ∷ positions)
        ]

    unfoldable pub get_query : ParamQuery → Result QueryError Query
    unfolding compose
    get_query q = compose q (record { sql = []; params = [] }) []
