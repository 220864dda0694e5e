-- ===== src/Util/Tests.antt =====
-- Runs of the composition of a query and of sets of flags.
use fred_libfred.Util.FlagSet.{
  Bits, xor, is_set, set, reset, flip, are_set_all_of, mask_of, set_bits, index_of,
}
use fred_libfred.Util.FlagSet.View.{contains, is_set-operations}
use fred_libfred.Common.{
  List, true, false, not, ◌&&◌, ◌||◌, ℕ, ◌+◌, ◌≡◌, refl, [], ◌∷◌, codes, Text, ok,
}
use fred_libfred.Util.ParamQuery.{
  ParamQuery, Query, ReusableParameter, add_text, param_bigint, param_reusable, get_query, compose,
  param,
}
use fred_libfred.Util.ParamQuery.Once.{asked, get_query-asked}
use fred_libfred.Util.ParamQuery.Positions.{Renders, get_query-Renders}

-- Prints the numbers below ten.
abbrev digit : ℕ → Text
digit n = (48 + n) ∷ []

abbrev some_id : ReusableParameter ℕ
some_id = record { lid = 7; type = codes "bigint"; value = 42 }

abbrev three_times : ParamQuery ℕ
three_times = param_reusable ℕ some_id (
    add_text ℕ (codes ",")
      (param_bigint ℕ 5 (add_text ℕ (codes ",") (param_reusable ℕ some_id []))))

once_each :
    get_query ℕ digit three_times
    ≡ ok (record { sql = codes "$1::bigint,$2::bigint,$1::bigint"; params = 42 ∷ 5 ∷ [] })
unfolding get_query compose param_reusable add_text param_bigint param
once_each = refl

get_query-Renders_example :
    (r : Query ℕ) × (get_query ℕ digit three_times ≡ ok r)
    × Renders ℕ digit r.params three_times r.sql
unfolding param_reusable add_text param_bigint param
get_query-Renders_example =
    get_query-Renders ℕ digit (λ lid. 42) three_times (refl, (tt, (tt, (tt, (refl, tt)))))

-- Flags 7, 8 and 9, of which 8 is set.
abbrev flags : List ℕ
flags = 7 ∷ 8 ∷ 9 ∷ []

abbrev some_flags : Bits
some_flags = false ∷ true ∷ false ∷ []

is_set-operations_example :
    (is_set flags 9 (set flags (9 ∷ 9 ∷ []) some_flags)
      ≡ (is_set flags 9 some_flags || contains 9 (9 ∷ 9 ∷ [])))
    × (is_set flags 9 (reset flags (9 ∷ 9 ∷ []) some_flags)
        ≡ (is_set flags 9 some_flags && not (contains 9 (9 ∷ 9 ∷ []))))
    × (is_set flags 9 (flip flags (9 ∷ 9 ∷ []) some_flags)
        ≡ xor (is_set flags 9 some_flags) (contains 9 (9 ∷ 9 ∷ [])))
is_set-operations_example =
    is_set-operations flags some_flags 9 (9 ∷ 9 ∷ []) refl refl (refl, (refl, tt))

all_of : are_set_all_of flags (8 ∷ []) some_flags ≡ true
unfolding are_set_all_of mask_of set_bits index_of
all_of = refl

get_query-asked_example : 2 ≡ asked ℕ [] three_times
unfolding param_reusable add_text param_bigint param
get_query-asked_example = get_query-asked ℕ digit three_times once_each
