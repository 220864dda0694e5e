-- ===== src/PublicRequest/Terminates.antt =====
-- The recursion over the requests to cancel ends: each call that goes on invalidates one more of them.
use fred_libfred.Common.{
  ℕ, zero, suc, ◌+◌, ◌-◌, ◌≤◌, ◌<◌, ◌≡◌, ◌≢◌, refl, ap, sym, List, [], ◌∷◌, map, length, ◌==◌,
  false, if◌then◌else◌, Bool-cases, inl, inr, Option, none, some, Result, ok, err, arith, subst,
}
use fred_libfred.Common.Operations.{Ends, Ends-mono, continue-Ends}
use fred_libfred.PublicRequest.{
  TypeIface, RequestRow, Db, RequestError, out_of_fuel, Status, opened, resolved, invalidated,
  same_status,
}
use fred_libfred.PublicRequest.Update.{
  UpdatePublicRequest, Cancel, UpdateResult, stop_letters, check_params, throw_me, updated_requests,
  updated_row, set_columns, invalidation, after_update, update_found, assigns_twice, update_with,
  update, first_row, cancel_by,
}
use fred_libfred.PublicRequest.Keeps.{letters_rows, after-Ends, cancel_by-Ends, CancelEnds}

-- How many requests are not invalidated.
live : List RequestRow → ℕ
live [] = 0
live (r ∷ rs) = live rs + (if same_status invalidated r.status then 0 else 1)

live-le-length : (rs : List RequestRow) → live rs ≤ length rs
unfolding live
live-le-length [] = omega arith
live-le-length (r ∷ rs) = ground (arith, live-le-length rs)

abbrev NotOut : RequestError → Type 0
NotOut e = e ≢ out_of_fuel

module _ (types : TypeIface) (now : ℕ) (log : Option ℕ) where
  open types use {Iface}

  module _ (type : Iface) (u : UpdatePublicRequest) (id : ℕ) where
    length-updated :
        (rows : List RequestRow)
        → length (map (updated_row types now id type u log) rows) ≡ length rows
    length-updated [] = refl
    length-updated (r ∷ rows) = ap suc (length-updated rows)

    module _ (invalidates : u.status ≡ some invalidated) where
      row_status :
          (r : RequestRow)
          → (updated_row types now id type u log r).status
            ≡ (if r.id == id then invalidated else r.status)
      unfolding set_columns
      row_status r = elim (Bool-cases (r.id == id)) [
        | inl e ↦ rw (e, invalidates) refl
        | inr e ↦ rw e refl
      ]

      live-updated :
          (rows : List RequestRow)
          → live (map (updated_row types now id type u log) rows) ≤ live rows
      unfolding live
      live-updated [] = omega arith
      live-updated (r ∷ rows) = rw (row_status r) (ground (arith, live-updated rows))

      live-lt :
          (rows : List RequestRow) (r : RequestRow)
          → first_row id rows ≡ some r
          → same_status invalidated r.status ≡ false
          → live (map (updated_row types now id type u log) rows) < live rows
      unfolding live
      live-lt [] r h k = cc
      live-lt (x ∷ rows) r h k = elim (Bool-cases (x.id == id)) [
        | inl e ↦ rw (row_status x) (ground (arith, live-updated rows))
        | inr e ↦ rw (row_status x) (ground (arith, live-lt rows r))
      ]

  abbrev LiveUpTo : ℕ → Db → Type 0
  LiveUpTo n db = live db.public_request ≤ n

  abbrev NestedEnds : ℕ → (UpdatePublicRequest → Cancel types) → Type 0
  NestedEnds fuel cancel =
      (m : ℕ) (v : UpdatePublicRequest)
      → v.status ≡ some invalidated
      → m < fuel
      → CancelEnds types (LiveUpTo m) NotOut (λ e h. h) (cancel v)

  after_invalidation :
      (fuel n : ℕ) (cancel : UpdatePublicRequest → Cancel types) (type : Iface)
      (v : UpdatePublicRequest) (s : Option Status) (r : RequestRow) (db : Db)
      → NestedEnds fuel cancel
      → v.status ≡ some invalidated
      → s ≡ some invalidated
      → LiveUpTo n db
      → (same_status invalidated r.status ≡ false → live db.public_request < n)
      → n < suc fuel
      → Ends (LiveUpTo n) NotOut (after_update types (cancel v) type s r db)
  after_invalidation fuel n cancel type v none r db nested inv is le fewer lt = cc
  after_invalidation fuel n cancel type v (some opened) r db nested inv is le fewer lt = cc
  after_invalidation fuel n cancel type v (some resolved) r db nested inv is le fewer lt = cc
  after_invalidation fuel n cancel type v (some invalidated) r db nested inv is le fewer lt =
      elim (Bool-cases (same_status invalidated r.status)) [
        | inl same ↦ unfold after_update in rw same (le, tt)
        | inr other ↦
            let less : live db.public_request < n = fewer other in
            Ends-mono (LiveUpTo (n - 1)) (LiveUpTo n) NotOut
              (after_update types (cancel v) type (some invalidated) r db) (λ t h. omega arith)
              (after-Ends types (LiveUpTo (n - 1)) NotOut (λ e h. h) (cancel v)
                (nested (n - 1) v inv (omega arith)) type (some invalidated) r db (omega arith))
      ]

  -- A request that is invalidated, and then those that this cancels.
  found-Ends :
      (fuel n : ℕ) (cancel : UpdatePublicRequest → Cancel types) (type : Iface)
      (u : UpdatePublicRequest) (id : ℕ) (r : Option RequestRow) (db : Db)
      → NestedEnds fuel cancel
      → u.status ≡ some invalidated
      → first_row id db.public_request ≡ r
      → LiveUpTo n db
      → n < suc fuel
      → Ends (LiveUpTo n) NotOut (update_found types now log cancel type u id r db)
  unfolding update_found updated_requests
  found-Ends fuel n cancel type u id none db nested inv found le lt = (le, λ h. cc)
  found-Ends fuel n cancel type u id (some r) db nested inv found le lt =
      continue-Ends (LiveUpTo n) NotOut
        (after_update types (cancel (invalidation types u r.type)) type u.status r
          (updated_requests types now id type u log db))
        _
        (after_invalidation fuel n cancel type (invalidation types u r.type) u.status r
          (updated_requests types now id type u log db) nested refl inv
          (omega (arith, live-updated type u id inv db.public_request))
          (λ other. omega (arith, live-lt type u id inv db.public_request r found other)) lt)
        λ v db1 p1. (p1, tt)

  -- The tests of the arguments; `R` is a property of the requests.
  with-Ends :
      (R : List RequestRow → Type 0) (cancel : UpdatePublicRequest → Cancel types) (type : Iface)
      (u : UpdatePublicRequest) (id : ℕ) (db : Db)
      → R db.public_request
      → ((t : Db)
          → t.public_request ≡ db.public_request
          → Ends
              (λ t'. R t'.public_request)
              NotOut
              (update_found types now log cancel type u id (first_row id t.public_request) t))
      → Ends (λ t. R t.public_request) NotOut (update_with types now log cancel type u id db)
  unfolding update_with
  with-Ends R cancel type u id db h found =
      let stopped = stop_letters types now u.status id db in
      let h' : R stopped.public_request = subst R (sym (letters_rows types now u.status id db)) h in
      elim (Bool-cases (throw_me (check_params u id log stopped))) [
        | inl bad ↦ rw bad (h', λ e. cc)
        | inr good ↦ rw good (elim (Bool-cases (assigns_twice u log)) [
          | inl twice ↦ rw twice (h', λ e. cc)
          | inr once ↦ rw once (found stopped (letters_rows types now u.status id db))
        ])
      ]

  -- An invalidation ends if there is more fuel than requests that are not invalidated.
  invalidation-Ends :
      (fuel n : ℕ) (type : Iface) (u : UpdatePublicRequest) (id : ℕ) (db : Db)
      → u.status ≡ some invalidated
      → LiveUpTo n db
      → n < fuel
      → Ends (LiveUpTo n) NotOut (update types now log fuel type u id db)
  unfolding update
  invalidation-Ends zero n type u id db inv le lt = absurd (omega arith)
  invalidation-Ends (suc fuel) n type u id db inv le lt =
      let cancel = cancel_by types (update types now log fuel) in
      with-Ends (λ rows. live rows ≤ n) cancel type u id db le
        λ t same.
          found-Ends fuel n cancel type u id (first_row id t.public_request) t
            (λ m v inv' lt'.
              cancel_by-Ends types (LiveUpTo m) NotOut (λ e h. h) (update types now log fuel) v
                (λ t' i db1 le1. invalidation-Ends fuel m t' v i db1 inv' le1 lt'))
            inv refl (subst (λ rows. live rows ≤ n) (sym same) le) lt

  any-Ends :
      (fuel n : ℕ) (type : Iface) (u : UpdatePublicRequest) (id : ℕ) (r : Option RequestRow)
      (db : Db)
      → length db.public_request ≤ n
      → n < fuel
      → Ends
          (λ t. Unit {0})
          NotOut
          (update_found types now log (cancel_by types (update types now log fuel)) type u id r db)
  unfolding update_found updated_requests
  any-Ends fuel n type u id none db le lt = (tt, λ h. cc)
  any-Ends fuel n type u id (some r) db le lt =
      let v = invalidation types u r.type in
      let rows = map (updated_row types now id type u log) db.public_request in
      let cancel = cancel_by types (update types now log fuel) v in
      let db' = updated_requests types now id type u log db in
      continue-Ends (λ t. Unit {0}) NotOut (after_update types cancel type u.status r db') _
        (Ends-mono (LiveUpTo n) (λ t. Unit {0}) NotOut
          (after_update types cancel type u.status r db') (λ t h. tt)
          (after-Ends types (LiveUpTo n) NotOut (λ e h. h) cancel
            (cancel_by-Ends types (LiveUpTo n) NotOut (λ e h. h) (update types now log fuel) v
              (λ t i db1 le1. invalidation-Ends fuel n t v i db1 refl le1 lt))
            type u.status r db'
            (omega (arith, live-le-length rows, length-updated type u id db.public_request))))
        λ w db1 p1. (tt, tt)

  out_of_fuel_not :
      (m : Result RequestError UpdateResult × Db)
      → Ends (λ t. Unit {0}) NotOut m
      → m.0 ≢ err out_of_fuel
  out_of_fuel_not (ok a, db) h e = cc
  out_of_fuel_not (err x, db) h e = h.1 (cc)

  -- The recursion of an update over the requests that it cancels ends: with fuel above the
  -- number of requests plus one it is never cut off, whatever types each type cancels.
  pub update_terminates :
      (fuel : ℕ) (type : Iface) (u : UpdatePublicRequest) (id : ℕ) (db : Db)
      → length db.public_request + 1 < fuel
      → (update types now log fuel type u id db).0 ≢ err out_of_fuel
  unfolding update
  update_terminates zero type u id db lt = absurd (omega arith)
  update_terminates (suc fuel) type u id db lt = out_of_fuel_not _ (
      with-Ends (λ rows. Unit {0}) (cancel_by types (update types now log fuel)) type u id db tt
        λ t same.
          any-Ends fuel (length db.public_request) type u id (first_row id t.public_request) t
            (omega (arith, ap (λ rows. length rows) same)) (omega arith))
