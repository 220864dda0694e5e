-- ===== src/PublicRequest/Created.antt =====
-- What a creation of a request that returned has done.
use fred_libfred.Common.{
  ℕ, ◌+◌, ◌≡◌, refl, sym, ap, ◌∙◌, List, [], ◌∷◌, ◌++◌, Text, text_eq, any, All, false, Bool-cases,
  inl, inr, length, Option, none, some, Result, ok, err, ok_injective,
}
use fred_libfred.Common.Operations.{returned}
use fred_libfred.PublicRequest.{TypeIface, opened, RequestRow, Db, RequestError}
use fred_libfred.PublicRequest.Update.{
  Cancel, cancel_requests, cancel_types, opened_requests, is_opened_of,
}
use fred_libfred.PublicRequest.EmailFormat.{EmailRegex}
use fred_libfred.PublicRequest.Later.{AllLater}
use fred_libfred.PublicRequest.Closed.{NoneOpened}
use fred_libfred.PublicRequest.Cancels.{IsOneOf, cancel, types-later, types-NoneOpened}
use fred_libfred.PublicRequest.Create.{
  CreatePublicRequest, invalidating, check_email, check_registrar, cancel_counted, cancel_on_create,
  opened_row, insert_request, create_public_request,
}

counted-types :
    (types : TypeIface) (call : Cancel types) (object_id number : ℕ) (ts : List types.Iface)
    (db db' : Db) {k : ℕ}
    → cancel_counted types call object_id number ts db ≡ (ok k, db')
    → cancel_types types call object_id ts db ≡ (ok tt, db')
unfolding cancel_counted cancel_types
counted-types types call object_id number [] db db' h = ap (λ m. (ok tt, m.1)) h
counted-types types call object_id number (t ∷ ts) db db' h =
    let found =
      opened_requests types object_id (types.get_public_request_type t) db.public_request in
    let (w, db1, first, rest) = returned (cancel_requests types call t found db) _ h in
    rw first (counted-types types call object_id (number + length found) ts db1 db' rest)

email_passed :
    (e : EmailRegex) (address : Option Text) (db db' : Db) {w : Unit {0}}
    → check_email e address db ≡ (ok w, db')
    → db ≡ db'
unfolding check_email
email_passed e none db db' h = ap (λ m. m.1) h
email_passed e (some a) db db' h = ap (λ m. m.1) h

registrar_passed :
    (i : Option ℕ) (db db' : Db) {w : Unit {0}} → check_registrar i db ≡ (ok w, db') → db ≡ db'
unfolding check_registrar
registrar_passed none db db' h = ap (λ m. m.1) h
registrar_passed (some i) db db' h = ap (λ m. m.1) h

thrown :
    {x : RequestError} {a : ℕ} {db db' : Db}
    → ◌≡◌ {A = Result RequestError ℕ × Db} (err x, db) (ok a, db')
    → ⊥
thrown h = cc

module _ (types : TypeIface) (now : ℕ) (log : Option ℕ) (fuel : ℕ) (e : EmailRegex) (object_id : ℕ)
    (type : types.Iface) (u : CreatePublicRequest) (ts : List types.Iface)
    (listed : types.get_public_request_types_to_cancel_on_create type ≡ some ts) where
  open types use {Iface, get_public_request_type, get_on_status_action}

  cancelled :
      (db db' : Db) {k : ℕ}
      → cancel_on_create types now log fuel type object_id u.registrar_id db ≡ (ok k, db')
      → AllLater now db.public_request db'.public_request
        × ((t : Iface)
            → IsOneOf types t ts
            → NoneOpened types object_id (get_public_request_type t) db'.public_request)
  unfolding cancel_on_create
  cancelled db db' h =
      let v = invalidating u.registrar_id in
      let call = cancel types now log fuel v refl in
      let done = counted-types types call object_id 0 ts db db' (rw listed at h) in
      (
        types-later types now log fuel v refl object_id ts db db' done,
        types-NoneOpened types now log fuel v refl object_id ts db db' done,
      )

  inserted :
      (db db' : Db) {id : ℕ}
      → insert_request log
          (get_public_request_type type)
          object_id
          (get_on_status_action type opened)
          u
          db
        ≡ (ok id, db')
      → (let row =
            opened_row log
              (get_public_request_type type)
              object_id
              (get_on_status_action type opened)
              u
              db in
          (id ≡ row.id) × (db'.public_request ≡ db.public_request ++ row ∷ []))
  unfolding insert_request
  inserted db db' h =
      elim (Bool-cases
        (any (λ t. text_eq t (get_public_request_type type)) db.enum_public_request_type)) [
          | inl known ↦
              let k = rw known at h in
              (sym (ok_injective (ap (λ m. m.0) k)), sym (ap (λ m. m.1.public_request) k))
          | inr unknown ↦ absurd (thrown (rw unknown at h))
        ]

  -- Where the types to be cancelled on the creation of a request of a type are listed, a
  -- creation that returns has first changed the requests as updates do (each keeps its identity,
  -- and none opens), so that none of its object of a type that is listed was opened, and then
  -- has put behind them one opened request with the id that is returned, of the type and the
  -- object, without a time of resolution.
  pub create-NoneOpened :
      (db db' : Db) (id : ℕ)
      → create_public_request types now log fuel e object_id type u db ≡ (ok id, db')
      → (rows : List RequestRow) × AllLater now db.public_request rows
        × ((t : Iface)
            → IsOneOf types t ts
            → All (λ r. is_opened_of types object_id (get_public_request_type t) r ≡ false) rows)
        × (row : RequestRow) × (db'.public_request ≡ rows ++ row ∷ [])
        × (row.id ≡ id)
        × (row.type ≡ get_public_request_type type)
        × (row.object_id ≡ object_id)
        × (row.status ≡ opened)
        × (row.resolve_time ≡ none)
  unfolding create_public_request
  create-NoneOpened db db' id h =
      let name = get_public_request_type type in
      let (number, db1, first, h1) =
        returned (cancel_on_create types now log fuel type object_id u.registrar_id db) _ h in
      let (w, db2, mail, h2) = returned (check_email e u.email_to_answer db1) _ h1 in
      let (w', db3, known, h3) = returned (check_registrar u.registrar_id db2) _ h2 in
      let same =
        email_passed e u.email_to_answer db1 db2 mail
        ∙ registrar_passed u.registrar_id db2 db3 known in
      let (later, closed) = cancelled db db1 first in
      let (is_id, rows) = inserted db3 db' h3 in
      let row = opened_row log name object_id (get_on_status_action type opened) u db3 in
      (
        db1.public_request,
        later,
        closed,
        row,
        rows ∙ ap (λ d. d.public_request ++ row ∷ []) (sym same),
        sym is_id,
        refl,
        refl,
        refl,
        refl,
      )
