-- ===== src/ObjectState/Create/Effect.antt =====
-- What a successful creation of requests has checked and done.
use fred_libfred.Common.{
  ℕ, ◌≡◌, refl, List, arith, Text, Bool, true, false, not, Result, ok, err, guard, ◌>>=◌, ◌>>◌,
  >>=-Steps, Option, none, some,
}
use fred_libfred.ObjectState.{ObjectRow, RequestRow, Db, RequestError, out_of_turn, malformed_query}
use fred_libfred.ObjectState.StateIds.{
  StatusList, StateIdMap, find_object, check_valid_status, get_state_id_map, ids,
}
use fred_libfred.ObjectState.Create.{
  Window, is_out_of_turn, conflicting, refuse, insert_rows, object_or_throw, has_ids, create_for,
  store_requests, create_object_state_request_id,
}

guard-ok :
    {A : Type 0} (t : Bool) (e : RequestError) (k : Result RequestError A) {a : A}
    → (guard t e >> k) ≡ ok a
    → (t ≡ true) × (k ≡ ok a)
guard-ok true e k h = (refl, h)
guard-ok false e k h = cc

refuse-ok :
    {A : Type 0} (r : Option RequestRow) (k : Result RequestError A) {a : A}
    → (refuse r >> k) ≡ ok a
    → (r ≡ none) × (k ≡ ok a)
refuse-ok none k h = (refl, h)
refuse-ok (some r) k h = cc

then-ok :
    {A : Type 0} (m : Result RequestError (Unit {0})) (k : Result RequestError A) {a : A}
    → (m >> k) ≡ ok a
    → (m ≡ ok tt) × (k ≡ ok a)
then-ok (ok tt) k h = (refl, h)
then-ok (err e) k h = cc

object-ok :
    (id : ℕ) (o : Option ObjectRow) {r : ObjectRow} → object_or_throw id o ≡ ok r → o ≡ some r
object-ok id none h = cc
object-ok id (some o) h = cc

-- The request is for these states, starts where the window says, and the tables are those after it.
pub record Created (limit_1 : List RequestRow → Option RequestRow) (db : Db) (now object_id : ℕ)
    (names : StatusList) (w : Window) (result : (Text × ℕ) × Db) : Type 0 where
  pub in_turn : is_out_of_turn now w.valid_from w.valid_to ≡ false
  pub object : ObjectRow
  pub found : find_object object_id db.object_registry ≡ some object
  pub statuses : check_valid_status db object names ≡ ok tt
  pub state_id_map : StateIdMap
  pub known : get_state_id_map db names object.type ≡ ok state_id_map
  pub some_state : has_ids (ids state_id_map) ≡ true
  pub no_conflict : limit_1 (conflicting db now object_id (ids state_id_map) w) ≡ none
  pub made :
      result
      ≡ ((object.name, db.next_request_id), insert_rows db now object_id w (ids state_id_map))

module _ (limit_1 : List RequestRow → Option RequestRow) (db : Db) (now object_id : ℕ)
    (names : StatusList) (w : Window) where
  pub create-Created :
      {result : (Text × ℕ) × Db}
      → create_object_state_request_id limit_1 db now object_id names w ≡ ok result
      → Created limit_1 db now object_id names w result
  unfolding create_object_state_request_id create_for store_requests
  create-Created h =
      let (turn, h₁) =
        guard-ok _ out_of_turn (looked_up >>= create_for limit_1 db now object_id names w) h in
      let (o, g₂, h₂) = >>=-Steps looked_up (create_for limit_1 db now object_id names w) h₁ in
      let (g₃, h₃) =
        then-ok (check_valid_status db o names) (get_state_id_map db names o.type >>= stored o)
          h₂ in
      let (m, g₄, h₄) = >>=-Steps (get_state_id_map db names o.type) (stored o) h₃ in
      let (g₅, h₅) = guard-ok _ malformed_query (refuse (chosen m) >> final o m) h₄ in
      let (g₆, h₆) = refuse-ok (chosen m) (final o m) h₅ in
      record {
        in_turn = not-true _ turn;
        object = o;
        found = object-ok object_id _ g₂;
        statuses = g₃;
        state_id_map = m;
        known = g₄;
        some_state = g₅;
        no_conflict = g₆;
        made = cc;
      }
    where
      not-true : (t : Bool) → not t ≡ true → t ≡ false
      not-true t e = ground arith

      looked_up : Result RequestError ObjectRow
      looked_up = object_or_throw object_id (find_object object_id db.object_registry)

      stored : ObjectRow → StateIdMap → Result RequestError ((Text × ℕ) × Db)
      stored o m = store_requests limit_1 db now object_id w o.name (ids m)

      chosen : StateIdMap → Option RequestRow
      chosen m = limit_1 (conflicting db now object_id (ids m) w)

      final : ObjectRow → StateIdMap → Result RequestError ((Text × ℕ) × Db)
      final o m = ok ((o.name, db.next_request_id), insert_rows db now object_id w (ids m))
