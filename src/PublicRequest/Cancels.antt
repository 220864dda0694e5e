-- ===== src/PublicRequest/Cancels.antt =====
-- After an update the requests of the types to cancel are not opened.
use fred_libfred.Common.{
  ℕ, ◌≡◌, refl, sym, ap, subst, ◌∙◌, List, [], ◌∷◌, map, ◌==◌, All, true, false, Bool-cases, ◌⊎◌,
  inl, inr, Option, some, Result, ok, arith,
}
use fred_libfred.Common.Operations.{returned, Ends, Ends-state}
use fred_libfred.PublicRequest.{
  TypeIface, RequestRow, Db, RequestError, Status, opened, resolved, invalidated, is_opened,
  same_status,
}
use fred_libfred.PublicRequest.Update.{
  UpdatePublicRequest, UpdateResult, Cancel, update, updated_row, set_columns, is_opened_of,
  opened_requests, cancel_requests, cancel_types, cancel_by, lock_request, lock_object,
  cancel_others, after_update, invalidation, first_row, result_of, is_allowed,
}
use fred_libfred.PublicRequest.Keeps.{Any, requests-Ends, types-Ends, cancel_by-Ends}
use fred_libfred.PublicRequest.Later.{AllLater, AllLater-refl, update-Ends_later}
use fred_libfred.PublicRequest.Written.{update-Written}
use fred_libfred.PublicRequest.Closed.{
  Closed, OneOf, NoneOpened, AllLater-Closed, AllLater-NoneOpened, opened_requests-Covered,
  Closed-NoneOpened,
}

abbrev pub IsOneOf : (types : TypeIface) → types.Iface → List types.Iface → Type 0
IsOneOf types t [] = ⊥
IsOneOf types t (x ∷ xs) = (t ≡ x) ⊎ IsOneOf types t xs

-- A request whose status is set is closed.
module _ (types : TypeIface) (now : ℕ) (log : Option ℕ) (v : UpdatePublicRequest) (s : Status)
    (sets : v.status ≡ some s) (closes : is_opened s ≡ false) (t : types.Iface) (id : ℕ) where
  row-Closed : (r : RequestRow) → Closed id (updated_row types now id t v log r)
  unfolding set_columns
  row-Closed r = elim (Bool-cases (r.id == id)) [
    | inl e ↦ λ h. rw (e, sets) closes
    | inr e ↦ λ h. let same : r.id ≡ id = rw e at h in ground arith
  ]

  rows-Closed :
      (rows : List RequestRow) → All (Closed id) (map (updated_row types now id t v log) rows)
  rows-Closed [] = tt
  rows-Closed (r ∷ rows) = (row-Closed r, rows-Closed rows)

allowed_closed : (s : Status) → is_allowed (some s) ≡ true → is_opened s ≡ false
allowed_closed opened h = cc
allowed_closed resolved h = refl
allowed_closed invalidated h = refl

module _ (types : TypeIface) (now : ℕ) (log : Option ℕ) (fuel : ℕ) (v : UpdatePublicRequest)
    (invalidates : v.status ≡ some invalidated) where
  open types use {Iface, get_public_request_type, get_public_request_types_to_cancel_on_update}

  abbrev pub exec : Iface → UpdatePublicRequest → ℕ → Db → Result RequestError UpdateResult × Db
  exec = update types now log fuel

  abbrev pub cancel : Cancel types
  cancel = cancel_by types exec v

  -- A request that has been invalidated is closed.
  cancel-Closed :
      (t : Iface) (id : ℕ) (db db' : Db) {w : Unit {0}}
      → cancel t id db ≡ (ok w, db')
      → All (Closed id) db'.public_request
  unfolding cancel_by lock_request
  cancel-Closed t id db db' h =
      let (w1, db1, locked, rest) = returned (lock_request types id db) _ h in
      let (result, db2, done, last) = returned (update types now log fuel t v id db1) _ rest in
      let w = update-Written types now log t v id fuel db1 done in
      subst (λ d. All (Closed id) d.public_request) (ap (λ m. m.1) last)
        (AllLater-Closed now id _ _ w.since
          (rows-Closed types now log v invalidated invalidates refl t id db1.public_request))

  calls-Ends :
      (rows : List RequestRow) (t : Iface) (i : ℕ) (db : Db)
      → AllLater now rows db.public_request
      → Ends (λ d. AllLater now rows d.public_request) Any (cancel t i db)
  calls-Ends rows =
      cancel_by-Ends types (λ d. AllLater now rows d.public_request) Any (λ e k. tt) exec v
        (λ t i db p. update-Ends_later types now log rows fuel t v i db p)

  requests-later :
      (t : Iface) (is : List ℕ) (db db' : Db) {w : Unit {0}}
      → cancel_requests types cancel t is db ≡ (ok w, db')
      → AllLater now db.public_request db'.public_request
  requests-later t is db db' h =
      let P : Db → Type 0 = λ d. AllLater now db.public_request d.public_request in
      subst (λ m. P m.1) h
        (Ends-state P Any (cancel_requests types cancel t is db) (
          requests-Ends types P Any (λ e k. tt) cancel (calls-Ends db.public_request) t is db
            (AllLater-refl types now log db.public_request)))

  pub types-later :
      (object_id : ℕ) (ts : List Iface) (db db' : Db) {w : Unit {0}}
      → cancel_types types cancel object_id ts db ≡ (ok w, db')
      → AllLater now db.public_request db'.public_request
  types-later object_id ts db db' h =
      let P : Db → Type 0 = λ d. AllLater now db.public_request d.public_request in
      subst (λ m. P m.1) h
        (Ends-state P Any (cancel_types types cancel object_id ts db) (
          types-Ends types P Any (λ e k. tt) cancel (calls-Ends db.public_request) object_id ts db
            (AllLater-refl types now log db.public_request)))

  requests-Closed :
      (t : Iface) (is : List ℕ) (db db' : Db) {w : Unit {0}}
      → cancel_requests types cancel t is db ≡ (ok w, db')
      → (i : ℕ) → OneOf i is
      → All (Closed i) db'.public_request
  unfolding cancel_requests
  requests-Closed t [] db db' h i m = absurd m
  requests-Closed t (j ∷ js) db db' h i m =
      let (w1, db1, first, rest) = returned (cancel t j db) _ h in
      elim m [
        | inl e ↦ AllLater-Closed now i _ _ (requests-later t js db1 db' rest) (
            subst (λ k. All (Closed k) db1.public_request) (sym e) (cancel-Closed t j db db1 first))
        | inr later ↦ requests-Closed t js db1 db' rest i later
      ]

  pub types-NoneOpened :
      (object_id : ℕ) (ts : List Iface) (db db' : Db) {w : Unit {0}}
      → cancel_types types cancel object_id ts db ≡ (ok w, db')
      → (t : Iface) → IsOneOf types t ts
      → NoneOpened types object_id (get_public_request_type t) db'.public_request
  unfolding cancel_types
  types-NoneOpened object_id [] db db' h t m = absurd m
  types-NoneOpened object_id (t0 ∷ ts) db db' h t m =
      let name = get_public_request_type t0 in
      let found = opened_requests types object_id name db.public_request in
      let (w1, db1, first, rest) = returned (cancel_requests types cancel t0 found db) _ h in
      elim m [
        | inl e ↦
            subst (λ x. NoneOpened types object_id (get_public_request_type x) db'.public_request)
              (sym e)
              (AllLater-NoneOpened types object_id name now _ _
                (types-later object_id ts db1 db' rest)
                (Closed-NoneOpened types object_id name now found db.public_request
                  db1.public_request (requests-later t0 found db db1 first)
                  (opened_requests-Covered types object_id name db.public_request)
                  (requests-Closed t0 found db db1 first)))
        | inr later ↦ types-NoneOpened object_id ts db1 db' rest t later
      ]

module _ (types : TypeIface) (now : ℕ) (log : Option ℕ) where
  open types use {Iface, get_public_request_type, get_public_request_types_to_cancel_on_update}

  others-NoneOpened :
      (fuel : ℕ) (v : UpdatePublicRequest) (object_id : ℕ) (ts : List Iface) (db db' : Db)
      → v.status ≡ some invalidated
      → cancel_others types (cancel_by types (update types now log fuel) v) object_id (some ts) db
        ≡ (ok tt, db')
      → (t : Iface) → IsOneOf types t ts
      → NoneOpened types object_id (get_public_request_type t) db'.public_request
  unfolding cancel_others lock_object
  others-NoneOpened fuel v object_id [] db db' inv h t m = absurd m
  others-NoneOpened fuel v object_id (x ∷ xs) db db' inv h t m =
      let (w, db1, locked, rest) = returned (lock_object types object_id db) _ h in
      types-NoneOpened types now log fuel v inv object_id (x ∷ xs) db1 db' rest t m

  after-NoneOpened :
      (fuel : ℕ) (v : UpdatePublicRequest) (type : Iface) (s : Status) (r : RequestRow)
      (ts : List Iface) (db db' : Db)
      → v.status ≡ some invalidated
      → same_status s r.status ≡ false
      → get_public_request_types_to_cancel_on_update type r.status s ≡ some ts
      → after_update types (cancel_by types (update types now log fuel) v) type (some s) r db
        ≡ (ok tt, db')
      → (t : Iface) → IsOneOf types t ts
      → NoneOpened types r.object_id (get_public_request_type t) db'.public_request
  unfolding after_update
  after-NoneOpened fuel v type s r ts db db' inv other list h =
      others-NoneOpened fuel v r.object_id ts db db' inv (rw (other, list) at h)

  -- An update that sets a status other than the one that the request had, and returns, returns
  -- that request alone; then no request with its id is opened, and of the types that are to be
  -- cancelled for the change of status no request of its object is opened.
  pub update-NoneOpened :
      (fuel : ℕ) (type : Iface) (u : UpdatePublicRequest) (id : ℕ) (s : Status) (r : RequestRow)
      (ts : List Iface) (db db' : Db) (result : UpdateResult)
      → update types now log fuel type u id db ≡ (ok result, db')
      → u.status ≡ some s
      → first_row id db.public_request ≡ some r
      → same_status s r.status ≡ false
      → get_public_request_types_to_cancel_on_update type r.status s ≡ some ts
      → (result ≡ result_of types r)
        × All (Closed id) db'.public_request
        × ((t : Iface)
            → IsOneOf types t ts
            → All
                (λ x. is_opened_of types r.object_id (get_public_request_type t) x ≡ false)
                db'.public_request)
  update-NoneOpened fuel type u id s r ts db db' result h sets found other list =
      let w = update-Written types now log type u id fuel db h in
      let same : w.row ≡ r = cc (w.is_row, found) in
      (
        w.is_result ∙ ap (result_of types) same,
        AllLater-Closed now id _ _ w.since (
            rows-Closed types now log u s sets
              (allowed_closed s (subst (λ x. is_allowed x ≡ true) sets w.allowed)) type id
              db.public_request),
        λ t m.
            subst (λ x. NoneOpened types x.object_id (get_public_request_type t) db'.public_request)
              same
              (after-NoneOpened w.depth (invalidation types u w.row.type) type s w.row ts w.start
                db' refl (subst (λ x. same_status s x.status ≡ false) (sym same) other)
                (subst (λ x. get_public_request_types_to_cancel_on_update type x.status s ≡ some ts)
                  (sym same) list)
                (subst
                  (λ x.
                    after_update types
                      (cancel_by types (update types now log w.depth)
                        (invalidation types u w.row.type))
                      type x w.row w.start
                    ≡ (ok tt, db'))
                  sets w.went_on)
                t m),
      )
