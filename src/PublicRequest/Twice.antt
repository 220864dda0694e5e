-- ===== src/PublicRequest/Twice.antt =====
-- An update that sets the status and the action sets one column twice, which the database refuses.
use fred_libfred.Common.{ℕ, ◌≡◌, ◌≢◌, false, List, false, Option, some, Result, ok}
use fred_libfred.PublicRequest.{TypeIface, Db, RequestRow, Status, OnStatusAction, RequestError}
use fred_libfred.PublicRequest.Update.{UpdatePublicRequest, UpdateResult}

module _ (types : TypeIface) (now : ℕ) (log : Option ℕ) (type : types.Iface)
    (u : UpdatePublicRequest) (s : Status) (a : OnStatusAction) (sets_status : u.status ≡ some s)
    (sets_action : u.on_status_action ≡ some a) where
  abbrev Refused : List RequestRow → Result RequestError UpdateResult × Db → Type 0
  Refused rows m = (m.1.public_request ≡ rows) × ((result : UpdateResult) → m.0 ≢ ok result)
