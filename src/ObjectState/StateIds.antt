-- ===== src/ObjectState/StateIds.antt =====
-- `GetObjectStateIdMap` (src/libfred/object_state/get_object_state_id_map.cc) and
-- `check_valid_status` (create_object_state_request_id.cc). A `StatusList` is a `std::set`: a list of
-- distinct names.
use fred_libfred.Common.{
  ℕ, List, [], ◌∷◌, map, Text, text_eq, text_ltb, length, ltb, ◌==◌, any, filter, if◌then◌else◌,
  Bool, true, false, not, ◌&&◌, Result, ok, err, Option, none, some,
}
use fred_libfred.ObjectState.{
  ObjectRow, StateRow, Db, RequestError, states_not_found, state_not_found,
}

abbrev pub StatusList : Type 0
StatusList = List Text

abbrev pub is_in : StatusList → Text → Bool
is_in names n = any (λ m. text_eq m n) names

-- `SELECT … FROM object_registry WHERE id=$1`: at most one row, for the key.
unfoldable pub find_object : ℕ → List ObjectRow → Option ObjectRow
find_object id [] = none
find_object id (o ∷ os) = if o.id == id then some o else find_object id os

-- `$1=ANY(types)`.
abbrev pub has_type : ℕ → StateRow → Bool
has_type t s = any (λ u. u == t) s.types

-- The rows of the query in `check_valid_status`, for an object of type `t`.
unfoldable pub valid_states : Db → ℕ → StatusList → List StateRow
valid_states db t names =
    filter (λ s. has_type t s && s.manual && is_in names s.name) db.enum_object_states

abbrev pub is_nil : StatusList → Bool
is_nil [] = true
is_nil (n ∷ ns) = false

-- The names that the query did not return.
abbrev pub missing : StatusList → StatusList → List Text
missing names correct = filter (λ n. not (is_in correct n)) names

unfoldable pub check_valid_status : Db → ObjectRow → StatusList → Result RequestError (Unit {0})
check_valid_status db object names =
    let rows = valid_states db object.type names in
    if is_nil names
    then ok tt
    else if length rows == length names
    then ok tt
    else err (states_not_found (missing names (map (λ s. s.name) rows)))

-- `std::map<std::string, ObjectStateId>`, in the order of its keys: an assignment replaces the value
-- of a key or adds the key in its place.
abbrev pub StateIdMap : Type 0
StateIdMap = List (Text × ℕ)

abbrev pub assign : Text → ℕ → StateIdMap → StateIdMap
assign k v [] = (k, v) ∷ []
assign k v ((j, w) ∷ m) =
    let rest = assign k v m in
    if text_eq j k then (j, v) ∷ m else if text_ltb k j then (k, v) ∷ (j, w) ∷ m else (j, w) ∷ rest

abbrev pub assign_all : List StateRow → StateIdMap → StateIdMap
assign_all [] m = m
assign_all (s ∷ ss) m = assign_all ss (assign s.name s.id m)

-- `get_result`: the states of those names for the type, manual or not.
unfoldable pub get_result : Db → StatusList → ℕ → StateIdMap
get_result db names t =
    if is_nil names
    then []
    else assign_all (filter (λ s. has_type t s && is_in names s.name) db.enum_object_states) []

unfoldable pub get_state_id_map : Db → StatusList → ℕ → Result RequestError StateIdMap
get_state_id_map db names t =
    let found = get_result db names t in
    let not_found = missing names (map (λ entry. entry.0) found) in
    if ltb (length found) (length names)
    then (if is_nil not_found then ok found else err (state_not_found not_found))
    else ok found

abbrev pub ids : StateIdMap → List ℕ
ids = map (λ entry. entry.1)
