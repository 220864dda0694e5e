-- ===== src/ObjectState/Cancel/Effect.antt =====
-- What a cancellation does to the stored requests.
use fred_libfred.Common.{
  ℕ, ◌≤◌, ◌≡◌, ◌↔◌, refl, sym, ap, ◌∙◌, List, [], ◌∷◌, arith, ◌==◌, any, All, All_mono, all→All,
  true, false, ◌&&◌, Bool-cases, inl, inr, Result, ok, err, Option, none, some,
}
use fred_libfred.ObjectState.{ObjectRow, RequestRow, Db, RequestError}
use fred_libfred.ObjectState.StateIds.{StatusList, StateIdMap, find_object, get_state_id_map, ids}
use fred_libfred.ObjectState.Create.{has_ids, object_or_throw, end_of, conflicts}
use fred_libfred.ObjectState.Create.Windows.{IsBefore}
use fred_libfred.ObjectState.Changes.{
  Stands, to_Stands, Stands-tests, Some, Changes, map-Changes, any-Some,
}
use fred_libfred.ObjectState.Cancel.{
  is_active, cancel_row, cancel_rows, cancelled_states, subset, updated, verdict, cancel_states,
  cancel_for, cancel_object_state_request_id,
}

module _ (now object_id : ℕ) (is : List ℕ) where
  -- A request for the object and one of the states that stands.
  abbrev pub Active : RequestRow → Type 0
  Active r = Stands now object_id r × (any (λ i. i == r.state_id) is ≡ true)

  is_active_iff : (r : RequestRow) → (is_active now object_id is r ≡ true) ↔ Active r
  unfolding is_active
  is_active_iff r = (
    λ h. (
      to_Stands now object_id r (ground arith) (ground arith) (ground arith) (ground arith),
      ground arith,
    ),
    λ (s, i). let (c, o, f, t) = Stands-tests now object_id r s in rw (c, o, f, t, i) refl,
  )

  cancel_rows-Changes :
      (rows : List RequestRow) → Changes Active now rows (cancel_rows now object_id is rows)
  unfolding cancel_rows
  cancel_rows-Changes rows = map-Changes Active now (is_active now object_id is) is_active_iff rows

  cancelled-any :
      (i : ℕ) (rows : List RequestRow)
      → any (λ j. j == i) (cancelled_states now object_id is rows)
        ≡ any (λ r. is_active now object_id is r && r.state_id == i) rows
  unfolding cancelled_states
  cancelled-any i [] = refl
  cancelled-any i (r ∷ rows) = ground (arith, cancelled-any i rows)

  -- A state among the changed ones has a request that stands.
  Active-row :
      (i : ℕ) (rows : List RequestRow)
      → any (λ j. j == i) (cancelled_states now object_id is rows) ≡ true
      → Some (λ r. Active r × (r.state_id ≡ i)) rows
  Active-row i rows h =
      (any-Some Active now (is_active now object_id is) is_active_iff i (λ r. r.state_id) rows).0
        (sym (cancelled-any i rows) ∙ h)

  end_of-cancel_row :
      (r : RequestRow)
      → is_active now object_id is r ≡ true
      → (end_of (cancel_row now object_id is r) ≡ some now) × (r.valid_from ≤ now)
  unfolding is_active
  end_of-cancel_row r h = ground arith

  no_conflict :
      (a : ℕ) (to : Option ℕ) → a ≤ now → IsBefore now to → conflicts a (some now) now to ≡ false
  unfolding conflicts
  no_conflict a none h l = ground arith
  no_conflict a (some to) h l = ground arith

  -- A request that was active and is cancelled now does not stand in the way of an interval from
  -- now on that is not empty.
  pub conflicts-cancel_row :
      (r : RequestRow) (to : Option ℕ)
      → is_active now object_id is r ≡ true
      → IsBefore now to
      → conflicts r.valid_from (end_of (cancel_row now object_id is r)) now to ≡ false
  conflicts-cancel_row r to h l =
      let (e, le) = end_of-cancel_row r h in rw e (no_conflict r.valid_from to le l)

module _ (db : Db) (now object_id : ℕ) (names : StatusList) where
  -- What a cancellation that returns has done.
  pub record Cancelled (after : Db) : Type 0 where
    pub object : ObjectRow
    pub found : find_object object_id db.object_registry ≡ some object
    pub m : StateIdMap
    pub known : get_state_id_map db names object.type ≡ ok m
    pub only_requests : after ≡ record db { object_state_request = after.object_state_request }
    pub changes :
        Changes
          (Active now object_id (ids m))
          now
          db.object_state_request
          after.object_state_request
    pub each_active :
        All
          (λ i.
            Some (λ r. Active now object_id (ids m) r × (r.state_id ≡ i)) db.object_state_request)
          (ids m)

  verdict-ok :
      (m : StateIdMap)
      → verdict db now object_id m ≡ ok tt
      → subset (ids m) (cancelled_states now object_id (ids m) db.object_state_request) ≡ true
  unfolding verdict
  verdict-ok m h = ground arith

  each :
      (m : StateIdMap)
      → verdict db now object_id m ≡ ok tt
      → All
          (λ i.
            Some (λ r. Active now object_id (ids m) r × (r.state_id ≡ i)) db.object_state_request)
          (ids m)
  each m h =
      All_mono (ids m) (λ i. Active-row now object_id (ids m) i db.object_state_request)
        (all→All _ (ids m) (verdict-ok m h))

  states :
      (o : ObjectRow) (x : Result RequestError StateIdMap) {after : Db}
      → find_object object_id db.object_registry ≡ some o
      → get_state_id_map db names o.type ≡ x
      → cancel_states db now object_id x ≡ (ok tt, after)
      → Cancelled after
  unfolding cancel_states
  states o (err e) f g h = cc
  states o (ok m) {after} f g h = elim (Bool-cases (has_ids (ids m))) [
    | inl e ↦ record {
      object = o;
      found = f;
      m = m;
      known = g;
      only_requests = rw (made e) refl;
      changes = rw (made e) (cancel_rows-Changes now object_id (ids m) db.object_state_request);
      each_active = each m (ap (λ p. p.0) (rw e at h));
    }
    | inr e ↦ cc (ap (λ p. p.0) (rw e at h))
  ]
    where
      made : has_ids (ids m) ≡ true → after ≡ updated db now object_id (ids m)
      made e = ground arith

  objects :
      (x : Option ObjectRow) {after : Db}
      → find_object object_id db.object_registry ≡ x
      → cancel_for db now object_id names (object_or_throw object_id x) ≡ (ok tt, after)
      → Cancelled after
  unfolding cancel_for
  objects none f h = cc
  objects (some o) f h = states o _ f refl h

  -- A cancellation that returns has changed the table of requests alone, row by row: a row of
  -- the object, of one of the states of the list, that is not cancelled, has begun and is not
  -- over has the current time as its cancellation and nothing else changed, and every other row
  -- is as it was; for each state of the list there was such a row.
  pub cancel-Cancelled :
      {after : Db}
      → cancel_object_state_request_id db now object_id names ≡ (ok tt, after)
      → Cancelled after
  unfolding cancel_object_state_request_id
  cancel-Cancelled h = objects _ refl h
