-- ===== src/PublicRequest/Keeps.antt =====
-- What stopping letters and setting the columns of a row keep, an update keeps, with all that it cancels.
use fred_libfred.Common.{
  ℕ, zero, suc, ◌≡◌, refl, List, [], ◌∷◌, Text, true, false, Bool-cases, inl, inr, Option, none,
  some, arith, ◌≢◌, any, ◌==◌,
}
use fred_libfred.Common.Operations.{Ends, continue-Ends, return, ◌>>=◌}
use fred_libfred.PublicRequest.{
  TypeIface, RequestRow, Db, Operation, opened, resolved, invalidated, same_status, Status,
  RequestError, out_of_fuel, type_failed, object_doesnt_exist, public_request_doesnt_exist,
}
use fred_libfred.PublicRequest.Update.{
  UpdatePublicRequest, UpdateResult, Cancel, stop_letter_sending, stop_letters, is_allowed,
  check_params, is_opened_row, throw_me, isset, bad_status, updated_requests, invalidation,
  opened_requests, cancel_requests, cancel_types, lock_object, lock_request, cancel_by,
  cancel_others, after_update, update_found, assigns_twice, update_with, update, first_row,
}

unset-allowed : (s : Option Status) → isset (bad_status s) ≡ false → is_allowed s ≡ true
unset-allowed none h = refl
unset-allowed (some opened) h = cc
unset-allowed (some resolved) h = refl
unset-allowed (some invalidated) h = refl

pub check_params-allowed :
    (u : UpdatePublicRequest) (id : ℕ) (log : Option ℕ) (db : Db)
    → throw_me (check_params u id log db) ≡ false
    → is_allowed u.status ≡ true
unfolding check_params
check_params-allowed u id log db h = ground (arith, unset-allowed u.status)

pub stopped_rows :
    (now id : ℕ) (db : Db) → (stop_letter_sending now id db).public_request ≡ db.public_request
unfolding stop_letter_sending
stopped_rows now id db = elim (Bool-cases (is_opened_row id db.public_request)) [
  | inl e ↦ rw e refl
  | inr e ↦ rw e refl
]

pub letters_rows :
    (types : TypeIface) (now : ℕ) (s : Option Status) (id : ℕ) (db : Db)
    → (stop_letters types now s id db).public_request ≡ db.public_request
unfolding stop_letters
letters_rows types now none id db = refl
letters_rows types now (some opened) id db = refl
letters_rows types now (some resolved) id db = refl
letters_rows types now (some invalidated) id db = stopped_rows now id db

module _ (types : TypeIface) (P : Db → Type 0) (Q : RequestError → Type 0)
    (throws : (e : RequestError) → e ≢ out_of_fuel → Q e) where
  open types use {Iface, get_public_request_type, get_public_request_types_to_cancel_on_update}

  -- A call that keeps the property at any tables.
  abbrev pub CancelEnds : Cancel types → Type 0
  CancelEnds cancel = (t : Iface) (i : ℕ) (db : Db) → P db → Ends P Q (cancel t i db)

  lock_object-Ends : (object_id : ℕ) (db : Db) → P db → Ends P Q (lock_object types object_id db)
  unfolding lock_object
  lock_object-Ends object_id db p = elim (Bool-cases (any (λ o. o == object_id) db.object)) [
    | inl e ↦ rw e (p, tt)
    | inr e ↦ rw e (p, throws (object_doesnt_exist object_id) (λ h. cc))
  ]

  lock_request-Ends : (id : ℕ) (db : Db) → P db → Ends P Q (lock_request types id db)
  unfolding lock_request
  lock_request-Ends id db p = elim (Bool-cases (any (λ r. r.id == id) db.public_request)) [
    | inl e ↦ rw e (p, tt)
    | inr e ↦ rw e (p, throws (public_request_doesnt_exist id) (λ h. cc))
  ]

  module _ (cancel : Cancel types) (keeps : CancelEnds cancel) where
    pub requests-Ends :
        (t : Iface) (is : List ℕ) (db : Db) → P db → Ends P Q (cancel_requests types cancel t is db)
    unfolding cancel_requests
    requests-Ends t [] db p = (p, tt)
    requests-Ends t (i ∷ is) db p =
        continue-Ends P Q (cancel t i db) _ (keeps t i db p) λ u db1 p1. requests-Ends t is db1 p1

    pub types-Ends :
        (object_id : ℕ) (ts : List Iface) (db : Db)
        → P db
        → Ends P Q (cancel_types types cancel object_id ts db)
    unfolding cancel_types
    types-Ends object_id [] db p = (p, tt)
    types-Ends object_id (t ∷ ts) db p =
        let found = opened_requests types object_id (get_public_request_type t) db.public_request in
        continue-Ends P Q (cancel_requests types cancel t found db) _ (requests-Ends t found db p)
          λ u db1 p1. types-Ends object_id ts db1 p1

    others-Ends :
        (object_id : ℕ) (ts : Option (List Iface)) (db : Db)
        → P db
        → Ends P Q (cancel_others types cancel object_id ts db)
    unfolding cancel_others
    others-Ends object_id none db p = (p, throws type_failed (λ h. cc))
    others-Ends object_id (some []) db p = (p, tt)
    others-Ends object_id (some (t ∷ ts)) db p =
        continue-Ends P Q (lock_object types object_id db) _ (lock_object-Ends object_id db p)
          λ u db1 p1. types-Ends object_id (t ∷ ts) db1 p1

    pub after-Ends :
        (type : Iface) (s : Option Status) (r : RequestRow) (db : Db)
        → P db
        → Ends P Q (after_update types cancel type s r db)
    unfolding after_update
    after-Ends type none r db p = (p, tt)
    after-Ends type (some s) r db p = elim (Bool-cases (same_status s r.status)) [
      | inl e ↦ rw e (p, tt)
      | inr e ↦ rw e (
          others-Ends r.object_id (get_public_request_types_to_cancel_on_update type r.status s) db
            p)
    ]

  pub cancel_by-Ends :
      (exec : Iface → UpdatePublicRequest → ℕ → Operation UpdateResult) (v : UpdatePublicRequest)
      → ((t : Iface) (i : ℕ) (db : Db) → P db → Ends P Q (exec t v i db))
      → CancelEnds (cancel_by types exec v)
  unfolding cancel_by
  cancel_by-Ends exec v keeps t i db p =
      let discard : UpdateResult → Operation (Unit {0}) = λ result. return tt in
      continue-Ends P Q (lock_request types i db) (λ w. exec t v i >>= discard)
        (lock_request-Ends i db p)
        λ w db1 p1.
          continue-Ends P Q (exec t v i db1) discard (keeps t i db1 p1) λ r db2 p2. (p2, tt)

-- Any exception will do.
abbrev pub Any : RequestError → Type 0
Any e = Unit

module _ (types : TypeIface) (now : ℕ) (log : Option ℕ) (P : Db → Type 0)
    (C : UpdatePublicRequest → Type 0)
    (invalidation-C : (u : UpdatePublicRequest) (type : Text) → C u → C (invalidation types u type))
    (stop-P : (id : ℕ) (db : Db) → P db → P (stop_letter_sending now id db)) where
  open types use {Iface}

  letters-Keeps : (s : Option Status) (id : ℕ) (db : Db) → P db → P (stop_letters types now s id db)
  unfolding stop_letters
  letters-Keeps none id db p = p
  letters-Keeps (some opened) id db p = p
  letters-Keeps (some resolved) id db p = p
  letters-Keeps (some invalidated) id db p = stop-P id db p

  module _
      (set-P : (type : Iface) (u : UpdatePublicRequest) (id : ℕ) (db : Db)
        → C u
        → is_allowed u.status ≡ true
        → P db
        → P (updated_requests types now id type u log db)) where
    found-Keeps :
        (cancel : UpdatePublicRequest → Cancel types) (type : Iface) (u : UpdatePublicRequest)
        (id : ℕ) (r : Option RequestRow) (db : Db)
        → ((v : UpdatePublicRequest) → C v → CancelEnds types P Any (λ e h. tt) (cancel v))
        → C u
        → is_allowed u.status ≡ true
        → P db
        → Ends P Any (update_found types now log cancel type u id r db)
    unfolding update_found
    found-Keeps cancel type u id none db keeps c ok_status p = (p, tt)
    found-Keeps cancel type u id (some r) db keeps c ok_status p =
        continue-Ends P Any
          (after_update types (cancel (invalidation types u r.type)) type u.status r
            (updated_requests types now id type u log db))
          _
          (after-Ends types P Any (λ e h. tt) (cancel (invalidation types u r.type))
            (keeps _ (invalidation-C u r.type c)) type u.status r
            (updated_requests types now id type u log db) (set-P type u id db c ok_status p))
          λ v db1 p1. (p1, tt)

    with-Keeps :
        (cancel : UpdatePublicRequest → Cancel types) (type : Iface) (u : UpdatePublicRequest)
        (id : ℕ) (db : Db)
        → ((v : UpdatePublicRequest) → C v → CancelEnds types P Any (λ e h. tt) (cancel v))
        → C u
        → P db
        → Ends P Any (update_with types now log cancel type u id db)
    unfolding update_with
    with-Keeps cancel type u id db keeps c p =
        let stopped = stop_letters types now u.status id db in
        let p1 = letters-Keeps u.status id db p in
        elim (Bool-cases (throw_me (check_params u id log stopped))) [
          | inl bad ↦ rw bad (p1, tt)
          | inr good ↦ rw good (elim (Bool-cases (assigns_twice u log)) [
            | inl twice ↦ rw twice (p1, tt)
            | inr once ↦ rw once (
                found-Keeps cancel type u id (first_row id stopped.public_request) stopped keeps c
                  (check_params-allowed u id log stopped good) p1)
          ])
        ]

    -- What stopping letters and setting columns keep, an update keeps.
    pub update-Ends :
        (fuel : ℕ) (type : Iface) (u : UpdatePublicRequest) (id : ℕ) (db : Db)
        → C u
        → P db
        → Ends P Any (update types now log fuel type u id db)
    unfolding update
    update-Ends zero type u id db c p = (p, tt)
    update-Ends (suc fuel) type u id db c p =
        with-Keeps (cancel_by types (update types now log fuel)) type u id db
          (λ v cv.
            cancel_by-Ends types P Any (λ e h. tt) (update types now log fuel) v
              (λ t i db1 p1. update-Ends fuel t v i db1 cv p1))
          c p
