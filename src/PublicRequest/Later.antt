-- ===== src/PublicRequest/Later.antt =====
-- What an update leaves as it was: a request that is closed is never opened again.
use fred_libfred.Common.{
  ℕ, ◌≡◌, refl, ◌∙◌, List, [], ◌∷◌, map, ◌==◌, true, false, Bool-cases, inl, inr, Option, none,
  some,
}
use fred_libfred.Common.Operations.{Ends, Ends-state}
use fred_libfred.PublicRequest.{
  TypeIface, RequestRow, Db, Status, opened, resolved, invalidated, is_opened,
}
use fred_libfred.PublicRequest.Update.{
  UpdatePublicRequest, stop_letter_sending, is_allowed, updated_requests, updated_row, set_columns,
  new_resolve_time, or_else, update,
}
use fred_libfred.PublicRequest.Keeps.{Any, stopped_rows, update-Ends}

-- `y` is what has become of the row `x`.
pub record Later (now : ℕ) (x y : RequestRow) : Type 0 where
  pub same_id : y.id ≡ x.id
  pub same_type : y.type ≡ x.type
  pub same_object : y.object_id ≡ x.object_id
  pub same_creation : y.create_request_id ≡ x.create_request_id
  pub not_reopened : is_opened y.status ≡ true → is_opened x.status ≡ true
  pub still_opened : is_opened y.status ≡ true → y.resolve_time ≡ x.resolve_time
  pub still_closed : is_opened x.status ≡ false → y.resolve_time ≡ x.resolve_time
  pub closed_now :
      is_opened x.status ≡ true → is_opened y.status ≡ false → y.resolve_time ≡ some now

-- Row by row.
abbrev pub AllLater : ℕ → List RequestRow → List RequestRow → Type 0
AllLater now [] [] = Unit
AllLater now (x ∷ xs) (y ∷ ys) = Later now x y × AllLater now xs ys
AllLater now [] (y ∷ ys) = ⊥
AllLater now (x ∷ xs) [] = ⊥

Later-refl : (now : ℕ) (x : RequestRow) → Later now x x
Later-refl now x = record {
  same_id = refl;
  same_type = refl;
  same_object = refl;
  same_creation = refl;
  not_reopened = λ h. h;
  still_opened = λ h. refl;
  still_closed = λ h. refl;
  closed_now = λ h k. cc;
}

Later-trans : (now : ℕ) (x y z : RequestRow) → Later now x y → Later now y z → Later now x z
Later-trans now x y z h k = record {
  same_id = cc;
  same_type = cc;
  same_object = cc;
  same_creation = cc;
  not_reopened = λ e. h.not_reopened (k.not_reopened e);
  still_opened = λ e. k.still_opened e ∙ h.still_opened (k.not_reopened e);
  still_closed = λ e. elim (Bool-cases (is_opened y.status)) [
    | inl up ↦ cc (h.not_reopened up)
    | inr down ↦ k.still_closed down ∙ h.still_closed e
  ];
  closed_now = λ up down. elim (Bool-cases (is_opened y.status)) [
    | inl y_up ↦ k.closed_now y_up down
    | inr y_down ↦ k.still_closed y_down ∙ h.closed_now up y_down
  ];
}

module _ (types : TypeIface) (now : ℕ) (log : Option ℕ) where
  open types use {Iface}

  opened_or_kept :
      (s : Option Status) (r : RequestRow)
      → is_allowed s ≡ true
      → is_opened (or_else s r.status) ≡ true
      → (is_opened r.status ≡ true) × (new_resolve_time now s r ≡ r.resolve_time)
  opened_or_kept none r ok_status h = (h, refl)
  opened_or_kept (some opened) r ok_status h = cc
  opened_or_kept (some resolved) r ok_status h = cc
  opened_or_kept (some invalidated) r ok_status h = cc

  closed_kept :
      (s : Option Status) (r : RequestRow)
      → is_opened r.status ≡ false
      → new_resolve_time now s r ≡ r.resolve_time
  closed_kept none r h = refl
  closed_kept (some s) r h = rw h refl

  closed_at :
      (s : Option Status) (r : RequestRow)
      → is_opened r.status ≡ true
      → is_opened (or_else s r.status) ≡ false
      → new_resolve_time now s r ≡ some now
  closed_at none r h k = cc
  closed_at (some s) r h k = rw h refl

  set_columns-Later :
      (type : Iface) (u : UpdatePublicRequest) (r : RequestRow)
      → is_allowed u.status ≡ true
      → Later now r (set_columns types now type u log r)
  unfolding set_columns
  set_columns-Later type u r ok_status = record {
    same_id = refl;
    same_type = refl;
    same_object = refl;
    same_creation = refl;
    not_reopened = λ h. (opened_or_kept u.status r ok_status h).0;
    still_opened = λ h. (opened_or_kept u.status r ok_status h).1;
    still_closed = closed_kept u.status r;
    closed_now = closed_at u.status r;
  }

  update_row-Later :
      (id : ℕ) (type : Iface) (u : UpdatePublicRequest) (r : RequestRow)
      → is_allowed u.status ≡ true
      → Later now r (updated_row types now id type u log r)
  update_row-Later id type u r ok_status = elim (Bool-cases (r.id == id)) [
    | inl e ↦ rw e (set_columns-Later type u r ok_status)
    | inr e ↦ rw e (Later-refl now r)
  ]

  map-AllLater :
      (id : ℕ) (type : Iface) (u : UpdatePublicRequest) (rows now_rows : List RequestRow)
      → is_allowed u.status ≡ true
      → AllLater now rows now_rows
      → AllLater now rows (map (updated_row types now id type u log) now_rows)
  map-AllLater id type u [] [] ok_status h = tt
  map-AllLater id type u [] (y ∷ ys) ok_status h = h
  map-AllLater id type u (x ∷ xs) [] ok_status h = h
  map-AllLater id type u (x ∷ xs) (y ∷ ys) ok_status (l, h) = (
    Later-trans now x y _ l (update_row-Later id type u y ok_status),
    map-AllLater id type u xs ys ok_status h,
  )

  pub AllLater-refl : (rows : List RequestRow) → AllLater now rows rows
  AllLater-refl [] = tt
  AllLater-refl (r ∷ rows) = (Later-refl now r, AllLater-refl rows)

  letters-AllLater :
      (rows : List RequestRow) (id : ℕ) (db : Db)
      → AllLater now rows db.public_request
      → AllLater now rows (stop_letter_sending now id db).public_request
  letters-AllLater rows id db h = rw (stopped_rows now id db) h

  pub update-Ends_later :
      (rows : List RequestRow) (fuel : ℕ) (type : Iface) (u : UpdatePublicRequest) (id : ℕ)
      (db : Db)
      → AllLater now rows db.public_request
      → Ends (λ t. AllLater now rows t.public_request) Any (update types now log fuel type u id db)
  unfolding updated_requests
  update-Ends_later rows fuel type u id db h =
      update-Ends types now log (λ t. AllLater now rows t.public_request) (λ v. Unit {0})
        (λ v name c. tt) (letters-AllLater rows)
        (λ t v i db1 c ok_status k. map-AllLater i t v rows db1.public_request ok_status k) fuel
        type u id db tt h

  -- Whatever an update returns or throws, each request after it is the one before it, with the
  -- id, the type, the object and the creation kept: it is opened only if it was, and then
  -- without a new time of resolution; if it was closed the time stays; if it is closed by the
  -- update the time is the current one.
  pub update-AllLater :
      (fuel : ℕ) (type : Iface) (u : UpdatePublicRequest) (id : ℕ) (db : Db)
      → AllLater now db.public_request (update types now log fuel type u id db).1.public_request
  update-AllLater fuel type u id db =
      Ends-state (λ t. AllLater now db.public_request t.public_request) Any _
        (update-Ends_later db.public_request fuel type u id db (AllLater-refl db.public_request))
