-- ===== src/PublicRequest/Written.antt =====
-- What an update that returned has written to its own row, and what it has returned.
use fred_libfred.Common.{
  ℕ, zero, suc, ◌≡◌, refl, sym, subst, ap, ◌∙◌, List, map, true, Bool-cases, inl, inr, Option, none,
  some, Result, ok, err, ok_injective,
}
use fred_libfred.Common.Operations.{Ends, returned}
use fred_libfred.PublicRequest.{TypeIface, RequestRow, Db, RequestError}
use fred_libfred.PublicRequest.Update.{
  UpdatePublicRequest, UpdateResult, stop_letters, check_params, throw_me, is_allowed,
  updated_requests, updated_row, invalidation, after_update, cancel_by, update_found, assigns_twice,
  update_with, update, first_row, result_of,
}
use fred_libfred.PublicRequest.Keeps.{
  Any, check_params-allowed, after-Ends, cancel_by-Ends, letters_rows,
}
use fred_libfred.PublicRequest.Later.{AllLater, AllLater-refl, update-Ends_later}

pub err_not_ok :
    {e : RequestError} {a : UpdateResult} {db db' : Db}
    → ◌≡◌ {A = Result RequestError UpdateResult × Db} (err e, db) (ok a, db')
    → ⊥
err_not_ok h = cc

module _ (types : TypeIface) (now : ℕ) (log : Option ℕ) (type : types.Iface)
    (u : UpdatePublicRequest) (id : ℕ) where
  -- The row, the test of the status, and the requests since the row was written.
  pub record Written (rows : List RequestRow) (result : UpdateResult) (db' : Db) : Type 0 where
    pub row : RequestRow
    pub is_row : first_row id rows ≡ some row
    pub is_result : result ≡ result_of types row
    pub allowed : is_allowed u.status ≡ true
    pub depth : ℕ
    pub start : Db
    pub start_rows : start.public_request ≡ map (updated_row types now id type u log) rows
    pub went_on :
        after_update types
          (cancel_by types (update types now log depth) (invalidation types u row.type))
          type
          u.status
          row
          start
        ≡ (ok tt, db')
    pub since : AllLater now (map (updated_row types now id type u log) rows) db'.public_request

  written_rows :
      (db : Db)
      → (updated_requests types now id type u log db).public_request
        ≡ map (updated_row types now id type u log) db.public_request
  unfolding updated_requests
  written_rows db = refl

  written :
      (db : Db)
      → AllLater now
          (map (updated_row types now id type u log) db.public_request)
          (updated_requests types now id type u log db).public_request
  unfolding updated_requests
  written db = AllLater-refl types now log _

  found-Written :
      (fuel : ℕ) (r : Option RequestRow) (db : Db) {result : UpdateResult} {db' : Db}
      → is_allowed u.status ≡ true
      → first_row id db.public_request ≡ r
      → update_found types now log (cancel_by types (update types now log fuel)) type u id r db
        ≡ (ok result, db')
      → Written db.public_request result db'
  unfolding update_found
  found-Written fuel none db ok_status found h = cc
  found-Written fuel (some r) db ok_status found h =
      let rows = map (updated_row types now id type u log) db.public_request in
      let cancel = cancel_by types (update types now log fuel) (invalidation types u r.type) in
      let db0 = updated_requests types now id type u log db in
      let (w, db1, first, last) = returned (after_update types cancel type u.status r db0) _ h in
      let P : Db → Type 0 = λ t. AllLater now rows t.public_request in
      let ends : Ends P Any (after_update types cancel type u.status r db0) =
        after-Ends types P Any (λ e k. tt) cancel
          (cancel_by-Ends types P Any (λ e k. tt) (update types now log fuel)
            (invalidation types u r.type)
            (λ t i db2 p.
              update-Ends_later types now log rows fuel t (invalidation types u r.type) i db2 p))
          type u.status r db0 (written db) in
      let after : P db1 × Unit {0} = subst (Ends P Any) first ends in
      record {
        row = r;
        is_row = found;
        is_result = sym (ok_injective (ap (λ m. m.0) last));
        allowed = ok_status;
        depth = fuel;
        start = db0;
        start_rows = written_rows db;
        went_on = first ∙ ap (λ d. (ok tt, d)) (ap (λ m. m.1) last);
        since = subst P (ap (λ m. m.1) last) after.0;
      }

  with-Written :
      (fuel : ℕ) (db : Db) {result : UpdateResult} {db' : Db}
      → update_with types now log (cancel_by types (update types now log fuel)) type u id db
        ≡ (ok result, db')
      → Written db.public_request result db'
  unfolding update_with
  with-Written fuel db {result} {db'} h =
      let cancel = cancel_by types (update types now log fuel) in
      let stopped = stop_letters types now u.status id db in
      elim (Bool-cases (throw_me (check_params u id log stopped))) [
        | inl bad ↦ absurd (err_not_ok (rw bad at h))
        | inr good ↦ elim (Bool-cases (assigns_twice u log)) [
          | inl twice ↦ absurd (err_not_ok (rw (good, twice) at h))
          | inr once ↦
              subst (λ rows. Written rows result db') (letters_rows types now u.status id db)
                (found-Written fuel (first_row id stopped.public_request) stopped
                  (check_params-allowed u id log stopped good) refl (rw (good, once) at h))
        ]
      ]

  -- An update that returned.
  pub update-Written :
      (fuel : ℕ) (db : Db) {result : UpdateResult} {db' : Db}
      → update types now log fuel type u id db ≡ (ok result, db')
      → Written db.public_request result db'
  unfolding update
  update-Written zero db h = cc
  update-Written (suc fuel) db h = with-Written fuel db h
