-- ===== src/PublicRequest/UpdateAll.antt =====
-- `GetOpenedPublicRequest::exec` (libfred/public_request/get_opened_public_request.cc) and the `exec` of
-- `UpdatePublicRequest` for all opened requests of one type and one object
-- (libfred/public_request/update_public_request.cc).
use fred_libfred.Common.{
  ℕ, zero, suc, List, [], ◌++◌, Text, text_eq, ◌==◌, any, filter, if◌then◌else◌, Bool, not, ◌&&◌,
  Option, none, some, Result, ok, err,
}
use fred_libfred.Common.Operations.{◌>>=◌, ◌>>◌, return, throw_if}
use fred_libfred.PublicRequest.{
  TypeIface, RequestRow, Db, RequestError, unknown_type, no_request_found,
  unexpected_public_request_type, unexpected_object_id, out_of_fuel, Operation,
}
use fred_libfred.PublicRequest.Update.{UpdatePublicRequest, UpdateResult, update, isset}

-- The `WHERE` of the query.
unfoldable pub is_asked : Text → ℕ → RequestRow → Bool
is_asked name object_id r =
    text_eq r.type name && (not (isset r.resolve_time) && r.object_id == object_id)

-- `limit_one` is `LIMIT 1`.
module _ (types : TypeIface) (limit_one : List RequestRow → Option RequestRow) where
  open types use {Iface, get_public_request_type}

  abbrev pub found_or_throw : Text → Option RequestRow → Result RequestError ℕ
  found_or_throw name none = err (no_request_found name)
  found_or_throw name (some r) = ok r.id

  unfoldable pub get_opened_public_request : Text → ℕ → Db → Result RequestError ℕ
  unfolding is_asked
  get_opened_public_request name object_id db =
      if any (λ t. text_eq t name) db.enum_public_request_type
      then found_or_throw name (limit_one (filter (is_asked name object_id) db.public_request))
      else err (unknown_type name)

  -- `catch (const GetOpenedPublicRequest::Exception&)`.
  abbrev pub caught : RequestError → UpdateResult → Result RequestError UpdateResult
  caught (no_request_found name) result = ok result
  caught e result = err e

  -- The tests of what an update of one request returned, and its requests put behind the others.
  unfoldable pub joined : UpdateResult → UpdateResult → Operation UpdateResult
  joined result changed = do
    throw_if (not (text_eq changed.public_request_type result.public_request_type))
        unexpected_public_request_type
    throw_if (not (changed.object_id == result.object_id)) unexpected_object_id
    return (record result {
      affected_requests = result.affected_requests ++ changed.affected_requests;
    })

  -- One turn of the loop; `again` is the rest of them.
  unfoldable pub turn :
      (ℕ → Operation UpdateResult)
      → (UpdateResult → Operation UpdateResult)
      → UpdateResult
      → Result RequestError ℕ
      → Operation UpdateResult
  unfolding joined
  turn one again result (err e) db = (caught e result, db)
  turn one again result (ok id) db =
      let run : Operation UpdateResult = one id >>= λ changed. joined result changed >>= again in
      run db

  module _ (now : ℕ) (log_request_id : Option ℕ) (depth : ℕ) where
    -- The loop, with as many turns as there is fuel; `depth` is the fuel of each update.
    unfoldable pub update_while :
        ℕ → Iface → UpdatePublicRequest → UpdateResult → Operation UpdateResult
    unfolding get_opened_public_request turn
    update_while zero type u result db = (err out_of_fuel, db)
    update_while (suc rounds) type u result db =
        turn (update types now log_request_id depth type u) (update_while rounds type u) result
          (get_opened_public_request result.public_request_type result.object_id db) db

    unfoldable pub update_all : ℕ → Iface → UpdatePublicRequest → ℕ → Operation UpdateResult
    unfolding update_while
    update_all rounds type u object_id = update_while rounds type u (record {
      affected_requests = [];
      public_request_type = get_public_request_type type;
      object_id = object_id;
    })
