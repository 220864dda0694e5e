-- ===== src/PublicRequest/Endless.antt =====
-- An update that sets no status leaves the requests opened, so the loop over them never ends by itself.
use fred_libfred.Common.{
  ℕ, zero, suc, ◌≡◌, ◌≢◌, refl, sym, ap, subst, ◌∙◌, List, [], ◌∷◌, map, Text, ◌==◌, any, All, Bool,
  true, false, Bool-cases, inl, inr, Option, none, some, Result, ok, err, arith,
}
use fred_libfred.Common.Operations.{returned}
use fred_libfred.PublicRequest.{TypeIface, RequestRow, Db, RequestError, Status}
use fred_libfred.PublicRequest.Update.{
  UpdatePublicRequest, UpdateResult, Cancel, update, assigns_twice, update_with, update_found,
  updated_requests, updated_row, set_columns, after_update, stop_letters, check_params, throw_me,
  first_row, cancel_by, invalidation,
}
use fred_libfred.PublicRequest.Keeps.{letters_rows}
use fred_libfred.PublicRequest.Written.{err_not_ok}
use fred_libfred.PublicRequest.Unresolved.{IsLimitOne}
use fred_libfred.PublicRequest.Loop.{Answer, get_opened-Answer}
use fred_libfred.PublicRequest.UpdateAll.{is_asked, caught, joined, turn, update_while, update_all}

any-map :
    (p : RequestRow → Bool) (f : RequestRow → RequestRow) (rows : List RequestRow)
    → ((r : RequestRow) → p (f r) ≡ p r)
    → any p (map f rows) ≡ any p rows
any-map p f [] h = refl
any-map p f (r ∷ rows) h = rw (h r, any-map p f rows h) refl

not_any :
    (p : RequestRow → Bool) (rows : List RequestRow)
    → All (λ r. p r ≡ false) rows
    → any p rows ≡ true
    → ⊥
not_any p [] a h = cc
not_any p (r ∷ rows) (e, a) h = not_any p rows a (rw e at h)

module _ (types : TypeIface) (now : ℕ) (log : Option ℕ) (type : types.Iface)
    (u : UpdatePublicRequest) (unset : u.status ≡ none) where
  row_kept :
      (name : Text) (object_id id : ℕ) (r : RequestRow)
      → is_asked name object_id (updated_row types now id type u log r) ≡ is_asked name object_id r
  unfolding is_asked set_columns
  row_kept name object_id id r = elim (Bool-cases (r.id == id)) [
    | inl e ↦ rw (e, unset) refl
    | inr e ↦ rw e refl
  ]

  after_none :
      (cancel : Cancel types) (s : Option Status) (r : RequestRow) (db : Db)
      → s ≡ none
      → after_update types cancel type s r db ≡ (ok tt, db)
  unfolding after_update
  after_none cancel none r db h = refl
  after_none cancel (some s) r db h = cc

  found_rows :
      (cancel : UpdatePublicRequest → Cancel types) (id : ℕ) (r : Option RequestRow) (db : Db)
      {result : UpdateResult} {db' : Db}
      → update_found types now log cancel type u id r db ≡ (ok result, db')
      → db'.public_request ≡ map (updated_row types now id type u log) db.public_request
  unfolding update_found updated_requests
  found_rows cancel id none db h = absurd (err_not_ok h)
  found_rows cancel id (some r) db h =
      let plain =
        after_none (cancel (invalidation types u r.type)) u.status r
          (updated_requests types now id type u log db) unset in
      sym (ap (λ m. m.1.public_request) (rw plain at h))

  with_rows :
      (cancel : UpdatePublicRequest → Cancel types) (id : ℕ) (db : Db) {result : UpdateResult}
      {db' : Db}
      → update_with types now log cancel type u id db ≡ (ok result, db')
      → db'.public_request ≡ map (updated_row types now id type u log) db.public_request
  unfolding update_with
  with_rows cancel id db {result} {db'} h =
      let stopped = stop_letters types now u.status id db in
      elim (Bool-cases (throw_me (check_params u id log stopped))) [
        | inl bad ↦ absurd (err_not_ok (rw bad at h))
        | inr good ↦ elim (Bool-cases (assigns_twice u log)) [
          | inl twice ↦ absurd (err_not_ok (rw (good, twice) at h))
          | inr once ↦
              subst (λ rows. db'.public_request ≡ map (updated_row types now id type u log) rows)
                (letters_rows types now u.status id db)
                (found_rows cancel id (first_row id stopped.public_request) stopped
                  (rw (good, once) at h))
        ]
      ]

  asked_kept :
      (depth : ℕ) (name : Text) (object_id id : ℕ) (db : Db) {result : UpdateResult} {db' : Db}
      → update types now log depth type u id db ≡ (ok result, db')
      → any (is_asked name object_id) db'.public_request
        ≡ any (is_asked name object_id) db.public_request
  unfolding update
  asked_kept zero name object_id id db h = absurd (err_not_ok h)
  asked_kept (suc depth) name object_id id db h =
      ap (any (is_asked name object_id))
        (with_rows (cancel_by types (update types now log depth)) id db h)
      ∙ any-map (is_asked name object_id) (updated_row types now id type u log) db.public_request
          (row_kept name object_id id)

  module _ (limit_one : List RequestRow → Option RequestRow) (limits : IsLimitOne limit_one)
      (depth : ℕ) where
    joined-kept :
        (result changed : UpdateResult) (db db' : Db) {joint : UpdateResult}
        → joined types limit_one result changed db ≡ (ok joint, db')
        → (joint.public_request_type ≡ result.public_request_type)
          × (joint.object_id ≡ result.object_id)
          × (db' ≡ db)
    unfolding joined
    joined-kept result changed db db' h = ground arith

    caught_never :
        (name : Text) (object_id : ℕ) (db db' : Db) (result : UpdateResult) {last : UpdateResult}
        (e : RequestError)
        → Answer name object_id db (err e)
        → any (is_asked name object_id) db.public_request ≡ true
        → ◌≡◌ {A = Result RequestError UpdateResult × Db}
            (caught types limit_one e result, db)
            (ok last, db')
        → ⊥
    caught_never name object_id db db' result e (inl unknown) asked h = err_not_ok (rw unknown at h)
    caught_never name object_id db db' result e (inr (e', gone)) asked h =
        not_any (is_asked name object_id) db.public_request gone asked

    turn_never :
        (result : UpdateResult) (db : Db)
        (again : UpdateResult → Db → Result RequestError UpdateResult × Db)
        (answer : Result RequestError ℕ) {last : UpdateResult} {db' : Db}
        → Answer result.public_request_type result.object_id db answer
        → any (is_asked result.public_request_type result.object_id) db.public_request ≡ true
        → ((joint : UpdateResult) (db1 : Db)
            → any (is_asked joint.public_request_type joint.object_id) db1.public_request ≡ true
            → again joint db1 ≢ (ok last, db'))
        → turn types limit_one (update types now log depth type u) again result answer db
          ≢ (ok last, db')
    unfolding turn
    turn_never result db again (err e) {last} {db'} a asked next h =
        caught_never result.public_request_type result.object_id db db' result e a asked h
    turn_never result db again (ok id) {last} {db'} a asked next h =
        let (changed, db1, first, rest) = returned (update types now log depth type u id db) _ h in
        let (joint, db2, second, last_turn) =
          returned (joined types limit_one result changed db1) again rest in
        let (same_type, same_object, same) = joined-kept result changed db1 db2 second in
        next joint db2
          (ap (λ t. any (is_asked t joint.object_id) db2.public_request) same_type
            ∙ (ap (λ o. any (is_asked result.public_request_type o) db2.public_request) same_object
                ∙ (ap
                      (λ t.
                        any (is_asked result.public_request_type result.object_id) t.public_request)
                      same
                    ∙ (asked_kept depth result.public_request_type result.object_id id db first
                        ∙ asked))))
          last_turn

    never :
        (rounds : ℕ) (result : UpdateResult) (db : Db) {last : UpdateResult} {db' : Db}
        → any (is_asked result.public_request_type result.object_id) db.public_request ≡ true
        → update_while types limit_one now log depth rounds type u result db ≢ (ok last, db')
    unfolding update_while
    never zero result db asked h = err_not_ok h
    never (suc rounds) result db asked h =
        turn_never result db (update_while types limit_one now log depth rounds type u) _
          (get_opened-Answer types limit_one limits result.public_request_type result.object_id db)
          asked (λ joint db1 asked1 h1. never rounds joint db1 asked1 h1) h

    -- Where the update sets no status and some request of the type and the object has no time of
    -- resolution, the loop returns no result, however many turns it is given.
    pub update_all_never :
        (rounds object_id : ℕ) (db : Db)
        → any (is_asked (types.get_public_request_type type) object_id) db.public_request ≡ true
        → ¬ (
            (result : UpdateResult) × (db' : Db) × (update_all types limit_one now log depth rounds
                type u object_id db
              ≡ (ok result, db')))
    unfolding update_all
    update_all_never rounds object_id db asked (result, db', h) = never rounds _ db asked h
