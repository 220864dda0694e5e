-- ===== src/PublicRequest/CreationTests.antt =====
-- Creations of requests on concrete tables.
use fred_libfred.Common.{
  ◌≡◌, refl, List, [], ◌∷◌, ◌++◌, codes, All, true, false, none, some, ok, err,
}
use fred_libfred.PublicRequest.{
  opened, processed, RequestRow, Db, wrong_email, unknown_registrar_id,
}
use fred_libfred.PublicRequest.Update.{is_opened_of}
use fred_libfred.PublicRequest.EmailFormat.{EmailRegex, get_utf8_char_len, split_at_last}
use fred_libfred.PublicRequest.Later.{AllLater}
use fred_libfred.PublicRequest.Cancels.{IsOneOf}
use fred_libfred.PublicRequest.Create.{
  CreatePublicRequest, create_public_request, create_public_request_auth, cancel_on_create,
}
use fred_libfred.PublicRequest.Created.{create-NoneOpened}
use fred_libfred.PublicRequest.Tests.{Kind, block, kind_name, kinds, tables}

abbrev any_text : EmailRegex
any_text = record {
  matches_user = λ t. true;
  matches_domain = λ t. true;
  convert_utf8_to_punnycode = λ t. none;
}

abbrev request : CreatePublicRequest
request = record { reason = none; email_to_answer = some (codes "a@b"); registrar_id = none }

abbrev tables_after : Db
tables_after = (create_public_request kinds 5 none 6 any_text 9 block request tables).1

created :
    create_public_request kinds 5 none 6 any_text 9 block request tables ≡ (ok 4, tables_after)
unfolding create_public_request
created = refl

counted : (cancel_on_create kinds 5 none 6 block 9 none tables).0 ≡ ok 1
unfolding cancel_on_create
counted = refl

address_without_at :
    (create_public_request kinds 5 none 6 any_text 9 block
      (record request { email_to_answer = some (codes "ab") })
      tables).0
    ≡ err (wrong_email (codes "ab"))
unfolding create_public_request
address_without_at = refl

no_such_registrar :
    (create_public_request kinds 5 none 6 any_text 8 block
      (record request { registrar_id = some 3 })
      tables).0
    ≡ err (unknown_registrar_id 3)
unfolding create_public_request
no_such_registrar = refl

with_password :
    (create_public_request_auth kinds 5 none 6 processed
      (codes "i")
      (codes "p")
      9
      block
      request
      tables).0
    ≡ ok (4, codes "i", codes "p")
unfolding create_public_request_auth
with_password = refl

last_at : split_at_last (codes "a@b@c") ≡ some (codes "a@b", codes "c")
unfolding split_at_last
last_at = refl

two_bytes_one_character : get_utf8_char_len (195 ∷ 161 ∷ 97 ∷ []) ≡ 2
unfolding get_utf8_char_len
two_bytes_one_character = refl

create-NoneOpened_example :
    (rows : List RequestRow) × AllLater 5 tables.public_request rows
    × ((t : Kind)
        → IsOneOf kinds t (block ∷ [])
        → All (λ r. is_opened_of kinds 9 (kind_name t) r ≡ false) rows)
    × (row : RequestRow) × (tables_after.public_request ≡ rows ++ row ∷ [])
    × (row.id ≡ 4)
    × (row.type ≡ 2 ∷ [])
    × (row.object_id ≡ 9)
    × (row.status ≡ opened)
    × (row.resolve_time ≡ none)
create-NoneOpened_example =
    create-NoneOpened kinds 5 none 6 any_text 9 block request (block ∷ []) refl tables tables_after
      4 created
