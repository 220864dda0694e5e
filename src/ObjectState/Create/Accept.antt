-- ===== src/ObjectState/Create/Accept.antt =====
-- Which new intervals are accepted beside the stored ones.
use fred_libfred.Common.{
  ℕ, ◌≡◌, refl, ap, ◌⊎◌, inl, inr, List, [], ◌∷◌, arith, Text, filter, All, All_mono, Bool, true,
  false, ◌&&◌, Bool-cases, ok, Option, none, some,
}
use fred_libfred.ObjectState.{ObjectRow, RequestRow, Db}
use fred_libfred.ObjectState.StateIds.{
  StatusList, StateIdMap, find_object, check_valid_status, get_state_id_map, ids,
}
use fred_libfred.ObjectState.Create.{
  Window, is_out_of_turn, start_of, end_of, before, concerns, conflicts, conflicting, insert_rows,
  has_ids, create_for, store_requests, create_object_state_request_id,
}
use fred_libfred.ObjectState.Create.Windows.{
  IsBefore, Overlap, StrictlyInside, StrictlyInside-or_not, conflicts_iff,
}
use fred_libfred.ObjectState.Create.Effect.{create-Created}

-- `LIMIT 1` returns a row exactly if there is one.
pub record IsLimitOne (limit_1 : List RequestRow → Option RequestRow) : Type 0 where
  pub of_nil : limit_1 [] ≡ none
  pub to_nil : (rows : List RequestRow) → limit_1 rows ≡ none → rows ≡ []

filter-nil :
    {A : Type 0} (p : A → Bool) (xs : List A) → filter p xs ≡ [] → All (λ x. p x ≡ false) xs
filter-nil p [] h = tt
filter-nil p (x ∷ xs) h = ground (arith, filter-nil p xs)

nil-filter :
    {A : Type 0} (p : A → Bool) (xs : List A) → All (λ x. p x ≡ false) xs → filter p xs ≡ []
nil-filter p [] h = refl
nil-filter p (x ∷ xs) (e, h) = ground (arith, nil-filter p xs h)

and-false : (p q : Bool) → (p && q) ≡ false → p ≡ true → q ≡ false
and-false p q h e = ground arith

hidden :
    (a : ℕ) (b : Option ℕ) (c : ℕ) (d : Option ℕ)
    → IsBefore c d
    → before b a ≡ false
    → StrictlyInside a b c d
    → conflicts a b c d ≡ false
hidden a b c d lasts ordered inside = elim (Bool-cases (conflicts a b c d)) [
  | inr e ↦ e
  | inl e ↦ absurd (seen ((conflicts_iff a b c d lasts).0 e))
]
  where
    seen : ((before b a ≡ true) ⊎ (Overlap a b c d × ¬ StrictlyInside a b c d)) → ⊥
    seen (inl r) = cc
    seen (inr (o, n)) = n inside

module _ (limit_1 : List RequestRow → Option RequestRow) (limit : IsLimitOne limit_1) (db : Db)
    (now object_id : ℕ) (names : StatusList) (w : Window) where
  -- Beside a stored request: it is no reversed interval, and it has a moment in common with the new
  -- one only if it lies strictly inside.
  abbrev pub Fits : List ℕ → RequestRow → Type 0
  Fits state_ids r =
      concerns object_id state_ids r ≡ true
      → (before (end_of r) r.valid_from ≡ false)
        × (Overlap r.valid_from (end_of r) (start_of now w) w.valid_to
            → StrictlyInside r.valid_from (end_of r) (start_of now w) w.valid_to)

  fits :
      (state_ids : List ℕ) (r : RequestRow)
      → IsBefore (start_of now w) w.valid_to
      → (concerns object_id state_ids r
          && conflicts r.valid_from (end_of r) (start_of now w) w.valid_to)
        ≡ false
      → Fits state_ids r
  fits state_ids r lasts e c =
      let quiet = and-false _ _ e c in
      let iff = conflicts_iff r.valid_from (end_of r) (start_of now w) w.valid_to lasts in
      (
        elim (Bool-cases (before (end_of r) r.valid_from)) [
          | inl b ↦ cc (iff.1 (inl b), quiet)
          | inr b ↦ b
        ],
        λ o. elim (StrictlyInside-or_not r.valid_from (end_of r) (start_of now w) w.valid_to) [
          | inl s ↦ s
          | inr n ↦ cc (iff.1 (inr (o, n)), quiet)
        ],
      )

  -- A creation of requests for an interval that is not empty, if it succeeds, has added its rows
  -- to the tables, and each stored request for the object and one of the states is disjoint from
  -- the new interval or strictly inside it, and does not end before it begins.
  pub create-Fits :
      {result : (Text × ℕ) × Db}
      → IsBefore (start_of now w) w.valid_to
      → create_object_state_request_id limit_1 db now object_id names w ≡ ok result
      → (m : StateIdMap) × (result.1 ≡ insert_rows db now object_id w (ids m))
        × All (Fits (ids m)) db.object_state_request
  unfolding conflicting
  create-Fits lasts h =
      let c = create-Created limit_1 db now object_id names w h in
      (
        c.state_id_map,
        ap (λ r. r.1) c.made,
        All_mono db.object_state_request (λ r e. fits (ids c.state_id_map) r lasts e)
            (filter-nil _ db.object_state_request (limit.to_nil _ c.no_conflict)),
      )

  -- The other tests of a creation pass, for this object and these states.
  pub record IsReady (object : ObjectRow) (m : StateIdMap) : Type 0 where
    pub in_turn : is_out_of_turn now w.valid_from w.valid_to ≡ false
    pub found : find_object object_id db.object_registry ≡ some object
    pub statuses : check_valid_status db object names ≡ ok tt
    pub known : get_state_id_map db names object.type ≡ ok m
    pub some_state : has_ids (ids m) ≡ true

  ready-create :
      (object : ObjectRow) (m : StateIdMap)
      → IsReady object m
      → conflicting db now object_id (ids m) w ≡ []
      → create_object_state_request_id limit_1 db now object_id names w
        ≡ ok ((object.name, db.next_request_id), insert_rows db now object_id w (ids m))
  unfolding create_object_state_request_id create_for store_requests
  ready-create object m y e =
      rw (y.in_turn, y.found, y.statuses, y.known, y.some_state, e, limit.of_nil)

  -- Where the stored requests for the object and its states lie strictly inside the new
  -- interval, each of them in order, and the other tests pass, the creation succeeds: it does
  -- not see that they overlap.
  pub create_accepts_covering :
      (object : ObjectRow) (m : StateIdMap)
      → IsReady object m
      → IsBefore (start_of now w) w.valid_to
      → All
          (λ r.
            concerns object_id (ids m) r ≡ true
            → (before (end_of r) r.valid_from ≡ false)
              × StrictlyInside r.valid_from (end_of r) (start_of now w) w.valid_to)
          db.object_state_request
      → create_object_state_request_id limit_1 db now object_id names w
        ≡ ok ((object.name, db.next_request_id), insert_rows db now object_id w (ids m))
  unfolding conflicting
  create_accepts_covering object m y lasts inside = ready-create object m y (
      nil-filter _ db.object_state_request
        (All_mono db.object_state_request (λ r g. unseen r g) inside))
    where
      unseen :
          (r : RequestRow)
          → (concerns object_id (ids m) r ≡ true
              → (before (end_of r) r.valid_from ≡ false)
                × StrictlyInside r.valid_from (end_of r) (start_of now w) w.valid_to)
          → (concerns object_id (ids m) r
              && conflicts r.valid_from (end_of r) (start_of now w) w.valid_to)
            ≡ false
      unseen r g = elim (Bool-cases (concerns object_id (ids m) r)) [
        | inr e ↦ ground arith
        | inl e ↦
            let (ordered, in') = g e in
            ground
              (arith, hidden r.valid_from (end_of r) (start_of now w) w.valid_to lasts ordered in')
      ]
