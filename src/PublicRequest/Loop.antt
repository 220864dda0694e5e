-- ===== src/PublicRequest/Loop.antt =====
-- The loop over all opened requests ends, and leaves none of them.
use fred_libfred.Common.{
  ℕ, zero, suc, ◌+◌, ◌<◌, ◌≡◌, ◌≢◌, refl, sym, ap, subst, ◌∙◌, List, [], ◌∷◌, length, Text, text_eq,
  ◌==◌, any, filter, All, true, false, Bool-cases, ◌⊎◌, inl, inr, Option, none, some, Result, ok,
  err, arith,
}
use fred_libfred.Common.Operations.{continue, ◌>>=◌}
use fred_libfred.PublicRequest.{
  TypeIface, RequestRow, Db, RequestError, out_of_fuel, no_request_found, Status, unknown_type,
  is_opened,
}
use fred_libfred.PublicRequest.Update.{UpdatePublicRequest, UpdateResult, isset, update}
use fred_libfred.PublicRequest.Later.{AllLater, update-AllLater}
use fred_libfred.PublicRequest.Written.{update-Written}
use fred_libfred.PublicRequest.Terminates.{update_terminates}
use fred_libfred.PublicRequest.Unresolved.{
  Pending, unresolved, unresolved-le-length, AllLater-Pending, AllLater-unresolved, AllLater-length,
  Among, IsLimitOne, filter-Among, filter-none, unresolved-lt,
}
use fred_libfred.PublicRequest.UpdateAll.{
  is_asked, get_opened_public_request, found_or_throw, caught, joined, turn, update_while,
  update_all,
}

-- The loop has been left by an exception of the code, or no request is left that is asked for.
abbrev pub Left : Text → ℕ → Result RequestError UpdateResult × Db → Type 0
Left name object_id (ok result, db) = All (λ r. is_asked name object_id r ≡ false) db.public_request
Left name object_id (err e, db) = e ≢ out_of_fuel

-- What the search of the next request says.
abbrev pub Answer : Text → ℕ → Db → Result RequestError ℕ → Type 0
Answer name object_id db (ok id) =
    (r : RequestRow) × Among r db.public_request × (r.id ≡ id) × (is_asked name object_id r ≡ true)
Answer name object_id db (err e) =
    (e ≡ unknown_type name)
    ⊎ ((e ≡ no_request_found name) × All (λ r. is_asked name object_id r ≡ false) db.public_request)

module _ (types : TypeIface) (limit_one : List RequestRow → Option RequestRow)
    (limits : IsLimitOne limit_one) where
  found-Answer :
      (name : Text) (object_id : ℕ) (db : Db) (found : Option RequestRow)
      → limit_one (filter (is_asked name object_id) db.public_request) ≡ found
      → Answer name object_id db (found_or_throw types limit_one name found)
  found-Answer name object_id db none h =
      inr (refl, filter-none (is_asked name object_id) db.public_request (limits.finds _ h))
  found-Answer name object_id db (some r) h =
      let (m, asked) =
        filter-Among (is_asked name object_id) r db.public_request (limits.picks _ r h) in
      (r, m, refl, asked)

  pub get_opened-Answer :
      (name : Text) (object_id : ℕ) (db : Db)
      → Answer name object_id db (get_opened_public_request types limit_one name object_id db)
  unfolding get_opened_public_request
  get_opened-Answer name object_id db =
      elim (Bool-cases (any (λ t. text_eq t name) db.enum_public_request_type)) [
        | inl e ↦ rw e (found-Answer name object_id db _ refl)
        | inr e ↦ rw e (inl refl)
      ]

  caught-Left :
      (name : Text) (object_id : ℕ) (db : Db) (result : UpdateResult) (e : RequestError)
      → Answer name object_id db (err e)
      → Left name object_id (caught types limit_one e result, db)
  caught-Left name object_id db result e (inl h) = rw h (λ k. cc)
  caught-Left name object_id db result e (inr (h, none_left)) = rw h none_left

  asked_parts :
      (name : Text) (object_id : ℕ) (r : RequestRow)
      → is_asked name object_id r ≡ true
      → isset r.resolve_time ≡ false
  unfolding is_asked
  asked_parts name object_id r h = ground arith

  joined-Left :
      (name : Text) (object_id : ℕ) (result changed : UpdateResult) (db : Db)
      (again : UpdateResult → Db → Result RequestError UpdateResult × Db)
      → ((affected : List ℕ)
          → Left name object_id (again (record result { affected_requests = affected }) db))
      → Left name object_id ((joined types limit_one result changed >>= again) db)
  unfolding joined
  joined-Left name object_id result changed db again h =
      elim (Bool-cases (text_eq changed.public_request_type result.public_request_type)) [
        | inr e ↦ rw e (λ k. cc)
        | inl e ↦ rw e (elim (Bool-cases (changed.object_id == result.object_id)) [
          | inr k ↦ rw k (λ x. cc)
          | inl k ↦ rw k (h _)
        ])
      ]

  each_Pending :
      (r : RequestRow) (rows : List RequestRow)
      → All Pending rows
      → Among r rows
      → isset r.resolve_time ≡ false
      → is_opened r.status ≡ true
  each_Pending r [] p m h = absurd m
  each_Pending r (x ∷ rows) (p, ps) (inl e) h =
      subst (λ y. is_opened y.status ≡ true) (sym e)
        (p (subst (λ y. isset y.resolve_time ≡ false) e h))
  each_Pending r (x ∷ rows) (p, ps) (inr m) h = each_Pending r rows ps m h

  module _ (now : ℕ) (log : Option ℕ) (depth : ℕ) (type : types.Iface) (u : UpdatePublicRequest)
      (s : Status) (sets : u.status ≡ some s) where
    -- A turn that updated_requests a request leaves fewer of them.
    turn-unresolved :
        (name : Text) (object_id id : ℕ) (db : Db) {changed : UpdateResult} {db' : Db}
        → All Pending db.public_request
        → Answer name object_id db (ok id)
        → update types now log depth type u id db ≡ (ok changed, db')
        → unresolved db'.public_request < unresolved db.public_request
    turn-unresolved name object_id id db pending (r, m, same, asked) h =
        let w = update-Written types now log type u id depth db h in
        let open_time : isset r.resolve_time ≡ false = asked_parts name object_id r asked in
        let less =
          unresolved-lt types now log type u id s sets r db.public_request m same open_time
            (each_Pending r db.public_request pending m open_time) in
        omega (arith, less, AllLater-unresolved now _ _ w.since)

    updated-Left :
        (result : UpdateResult) (db : Db)
        (again : UpdateResult → Db → Result RequestError UpdateResult × Db) (id : ℕ)
        (m : Result RequestError UpdateResult × Db)
        → update types now log depth type u id db ≡ m
        → All Pending db.public_request
        → length db.public_request + 1 < depth
        → Answer result.public_request_type result.object_id db (ok id)
        → ((affected : List ℕ) (db' : Db)
            → All Pending db'.public_request
            → length db'.public_request + 1 < depth
            → unresolved db'.public_request < unresolved db.public_request
            → Left result.public_request_type result.object_id
                (again (record result { affected_requests = affected }) db'))
        → Left result.public_request_type result.object_id
            (continue m (λ changed. joined types limit_one result changed >>= again))
    updated-Left result db again id (err e, db') h pending short a next = λ out.
        update_terminates types now log depth type u id db short (ap (λ m. m.0) h ∙ ap err out)
    updated-Left result db again id (ok changed, db') h pending short a next =
        let later =
          subst (λ m. AllLater now db.public_request m.1.public_request) h
            (update-AllLater types now log depth type u id db) in
        joined-Left result.public_request_type result.object_id result changed db' again λ affected.
          next affected db' (AllLater-Pending now _ _ later pending)
            (omega (arith, AllLater-length now _ _ later))
            (turn-unresolved result.public_request_type result.object_id id db pending a h)

    -- `again` ends well from tables with fewer requests.
    turn-Left :
        (result : UpdateResult) (db : Db)
        (again : UpdateResult → Db → Result RequestError UpdateResult × Db)
        (answer : Result RequestError ℕ)
        → All Pending db.public_request
        → length db.public_request + 1 < depth
        → Answer result.public_request_type result.object_id db answer
        → ((affected : List ℕ) (db' : Db)
            → All Pending db'.public_request
            → length db'.public_request + 1 < depth
            → unresolved db'.public_request < unresolved db.public_request
            → Left result.public_request_type result.object_id
                (again (record result { affected_requests = affected }) db'))
        → Left result.public_request_type result.object_id
            (turn types limit_one (update types now log depth type u) again result answer db)
    unfolding turn
    turn-Left result db again (err e) pending short a next =
        caught-Left result.public_request_type result.object_id db result e a
    turn-Left result db again (ok id) pending short a next =
        updated-Left result db again id (update types now log depth type u id db) refl pending short
          a next

    while-Left :
        (rounds : ℕ) (result : UpdateResult) (db : Db)
        → All Pending db.public_request
        → length db.public_request + 1 < depth
        → unresolved db.public_request < rounds
        → Left result.public_request_type result.object_id
            (update_while types limit_one now log depth rounds type u result db)
    unfolding update_while
    while-Left zero result db pending short less = absurd (omega arith)
    while-Left (suc rounds) result db pending short less =
        turn-Left result db (update_while types limit_one now log depth rounds type u) _ pending
          short (get_opened-Answer result.public_request_type result.object_id db)
          λ affected db' pending' short' less'.
            while-Left rounds (record result { affected_requests = affected }) db' pending' short'
              (omega arith)

    -- Where the update sets a status, each request without a time of resolution is opened, LIMIT
    -- 1 leaves a row if there is one, and the loop and each update have fuel above the number of
    -- requests (plus one), the loop over the opened requests of a type and an object is not cut
    -- off, and if it returns then no request of the type and the object is without a time of
    -- resolution.
    pub update_all-Left :
        (rounds object_id : ℕ) (db : Db)
        → All Pending db.public_request
        → length db.public_request + 1 < depth
        → length db.public_request < rounds
        → Left
            (types.get_public_request_type type)
            object_id
            (update_all types limit_one now log depth rounds type u object_id db)
    unfolding update_all
    update_all-Left rounds object_id db pending short enough =
        while-Left rounds _ db pending short (omega (arith, unresolved-le-length db.public_request))
