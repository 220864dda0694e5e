-- ===== src/ObjectState/Clear/Effect.antt =====
-- What clearing does to the stored requests.
use fred_libfred.Common.{
  ℕ, ◌≡◌, ◌↔◌, refl, sym, ◌∙◌, ◌⊎◌, List, [], ◌∷◌, ◌++◌, arith, Text, codes, text_eq→eq, take, drop,
  take-append-drop, ap, ◌==◌, ==_iff, any, filter, Bool, true, false, ◌&&◌, ◌||◌, Bool-cases, inl,
  inr,
}
use fred_libfred.ObjectState.{StateRow, RequestRow, Db}
use fred_libfred.ObjectState.Changes.{
  Stands, to_Stands, Stands-tests, Some, Changes, map-Changes, any-Some,
}
use fred_libfred.ObjectState.Clear.{
  is_server_name, is_server_state, is_cleared, ids_of, clear_object_state_request_id,
}

-- A name that begins with server.
abbrev pub IsServerName : Text → Type 0
IsServerName name = (rest : Text) × (name ≡ codes "server" ++ rest)

-- The id of a state that is set by hand and has such a name.
abbrev pub IsServerState : ℕ → List StateRow → Type 0
IsServerState i [] = ⊥
IsServerState i (s ∷ states) =
    ((s.id ≡ i) × (s.manual ≡ true) × IsServerName s.name) ⊎ IsServerState i states

is_server_name_iff : (name : Text) → (is_server_name name ≡ true) ↔ IsServerName name
is_server_name_iff name = (
  λ h. (
    drop 6 name,
    sym (take-append-drop 6 name)
        ∙ ap (λ t. t ++ drop 6 name) (text_eq→eq (take 6 name) (codes "server") h),
  ),
  λ (rest, e). rw e refl,
)

all_three : (x y z : Bool) → (x && y && z) ≡ true → (x ≡ true) × (y ≡ true) × (z ≡ true)
all_three true true true h = (refl, refl, refl)
all_three true true false h = cc
all_three true false z h = cc
all_three false y z h = cc

second : (x y : Bool) → x ≡ false → (x || y) ≡ true → y ≡ true
second false y e h = h
second true y e h = cc

either : (x y : Bool) → ((x ≡ true) ⊎ (y ≡ true)) → (x || y) ≡ true
either true y h = refl
either false y (inl h) = cc
either false y (inr h) = h

is_meant_iff :
    (i : ℕ) (s : StateRow)
    → ((s.id == i && s.manual && is_server_name s.name) ≡ true)
      ↔ ((s.id ≡ i) × (s.manual ≡ true) × IsServerName s.name)
is_meant_iff i s = (
  λ h.
      let (e, m, n) = all_three (s.id == i) s.manual (is_server_name s.name) h in
      ((==_iff s.id i).0 e, m, (is_server_name_iff s.name).0 n),
  λ (e, m, n). rw ((==_iff s.id i).1 e, m, (is_server_name_iff s.name).1 n) refl,
)

IsServerState-iff :
    (i : ℕ) (states : List StateRow)
    → (any (λ s. s.id == i && s.manual && is_server_name s.name) states ≡ true)
      ↔ IsServerState i states
IsServerState-iff i [] = (λ h. cc, λ h. absurd h)
IsServerState-iff i (s ∷ states) = (
  λ h. elim (Bool-cases (s.id == i && s.manual && is_server_name s.name)) [
    | inl e ↦ inl ((is_meant_iff i s).0 e)
    | inr e ↦ inr ((IsServerState-iff i states).0 (second _ _ e h))
  ],
  λ h. elim h [
    | inl e ↦ either _ _ (inl ((is_meant_iff i s).1 e))
    | inr later ↦ either _ _ (inr ((IsServerState-iff i states).1 later))
  ],
)

module _ (db : Db) (now object_id : ℕ) where
  -- A request for the object that stands, for such a state.
  abbrev pub IsServerRequest : RequestRow → Type 0
  IsServerRequest r = Stands now object_id r × IsServerState r.state_id db.enum_object_states

  is_cleared_iff : (r : RequestRow) → (is_cleared db now object_id r ≡ true) ↔ IsServerRequest r
  unfolding is_cleared is_server_state
  is_cleared_iff r =
      let states = IsServerState-iff r.state_id db.enum_object_states in
      (
        λ h. (
          to_Stands now object_id r (ground arith) (ground arith) (ground arith) (ground arith),
          states.0 (ground arith),
        ),
        λ (s, i).
            let (c, o, f, t) = Stands-tests now object_id r s in rw (c, o, f, t, states.1 i) refl,
      )

  returned :
      (i : ℕ) (rows : List RequestRow)
      → any (λ j. j == i) (ids_of db now object_id (filter (is_cleared db now object_id) rows))
        ≡ any (λ r. is_cleared db now object_id r && r.id == i) rows
  returned i [] = refl
  returned i (r ∷ rows) = ground (arith, returned i rows)

  -- Clearing changes the table of requests alone, row by row: a row of the object that is not
  -- cancelled, has begun and is not over, for a state that is set by hand and has a name that
  -- begins with server, has the current time as its cancellation and nothing else changed, and
  -- every other row is as it was; the ids that are returned are those of the former rows.
  pub clear-Cleared :
      (let (returned_ids, after) = clear_object_state_request_id db now object_id in
        (after ≡ record db { object_state_request = after.object_state_request })
        × Changes IsServerRequest now db.object_state_request after.object_state_request
        × ((i : ℕ)
            → (any (λ j. j == i) returned_ids ≡ true)
              ↔ Some (λ r. IsServerRequest r × (r.id ≡ i)) db.object_state_request))
  unfolding clear_object_state_request_id
  clear-Cleared = (
    refl,
    map-Changes IsServerRequest now (is_cleared db now object_id) is_cleared_iff
        db.object_state_request,
    λ i.
        let some_iff =
          any-Some IsServerRequest now (is_cleared db now object_id) is_cleared_iff i (λ r. r.id)
            db.object_state_request in
        let same = returned i db.object_state_request in
        (λ h. some_iff.0 (sym same ∙ h), λ s. same ∙ some_iff.1 s),
  )
