-- ===== src/Registrar/ZoneAccess/Tests.antt =====
-- The operations on concrete tables.
use fred_libfred.Common.{
  ℕ, Text, ◌≡◌, refl, List, [], ◌∷◌, text_eq, text_eq→eq, text_eq_refl, subst, true, none, some, ok,
  err, arith,
}
use fred_libfred.Registrar.ZoneAccess.{
  RegistrarRow, AccessRow, Db, day, special, Letters, undefined_order,
  overlapping_zone_access_range, nonexistent_registrar, nonexistent_zone, no_update_data,
  invalid_zone_access_period, nonexistent_zone_access,
}
use fred_libfred.Registrar.ZoneAccess.Change.{
  add_registrar_zone_access, update_registrar_zone_access, delete_registrar_zone_access,
}
use fred_libfred.Registrar.ZoneAccess.History.{
  RegistrarZoneAccessHistory, compare_by_time, get_zone_access_history, has_access,
}
use fred_libfred.Registrar.ZoneAccess.Exclusive.{Disjoint}
use fred_libfred.Registrar.ZoneAccess.Calls.{Call, add, update, delete, run, run_calls-Disjoint}
use fred_libfred.Registrar.ZoneAccess.Returns.{history-is_covered}
use fred_libfred.Registrar.ZoneAccess.Inserted.{IsSameName}
use fred_libfred.Registrar.ZoneAccess.Access.{is_covered, has_access-is_covered}

abbrev letters : Letters
letters = record { upper = λ t. t; lower = λ t. t }

abbrev past : AccessRow
past = record { id = 1; registrarid = 1; zone = 5; fromdate = 2; todate = some 5 }

abbrev lasting : AccessRow
lasting = record past { id = 2; fromdate = 10; todate = none }

abbrev alfa : RegistrarRow
alfa = record { id = 1; handle = 65 ∷ [] }

abbrev tables : Db
tables = record {
  registrar = alfa ∷ [];
  zone = record { id = 5; fqdn = 99 ∷ [] } ∷ record { id = 6; fqdn = 98 ∷ [] } ∷ [];
  registrarinvoice = past ∷ lasting ∷ [];
  next_id = 3;
}

between :
    (add_registrar_zone_access letters (65 ∷ []) (99 ∷ []) (day 6) (some (day 9)) tables).0 ≡ ok 3
unfolding add_registrar_zone_access
between = refl

into_lasting :
    (add_registrar_zone_access letters (65 ∷ []) (99 ∷ []) (day 6) none tables).0
    ≡ err overlapping_zone_access_range
unfolding add_registrar_zone_access
into_lasting = refl

-- The end may be before the start.
backwards :
    (add_registrar_zone_access letters (65 ∷ []) (98 ∷ []) (day 6) (some (day 4)) tables).0 ≡ ok 3
unfolding add_registrar_zone_access
backwards = refl

unknown_zone :
    (add_registrar_zone_access letters (65 ∷ []) [] (day 6) none tables).0 ≡ err nonexistent_zone
unfolding add_registrar_zone_access
unknown_zone = refl

unknown_registrar :
    (add_registrar_zone_access letters [] [] (day 6) none tables).0 ≡ err nonexistent_registrar
unfolding add_registrar_zone_access
unknown_registrar = refl

prolonged :
    (update_registrar_zone_access 1 none (some (day 12)) tables).0
    ≡ err overlapping_zone_access_range
unfolding update_registrar_zone_access
prolonged = refl

turned :
    (update_registrar_zone_access 1 none (some (day 1)) tables).0 ≡ err invalid_zone_access_period
unfolding update_registrar_zone_access
turned = refl

unchanged : (update_registrar_zone_access 1 none (some special) tables).0 ≡ err no_update_data
unfolding update_registrar_zone_access
unchanged = refl

missing : (delete_registrar_zone_access 4 tables).0 ≡ err nonexistent_zone_access
unfolding delete_registrar_zone_access
missing = refl

-- A period that ends before it starts stands before itself.
not_irreflexive :
    compare_by_time
      (record { from_date = 6; to_date = some 4 })
      (record { from_date = 6; to_date = some 4 })
    ≡ true
unfolding compare_by_time
not_irreflexive = refl

tables-Disjoint : Disjoint tables.registrarinvoice
tables-Disjoint = ((λ d same on. ground arith, tt), (tt, tt))

abbrev calls : List Call
calls =
    add (65 ∷ []) (99 ∷ []) (day 6) (some (day 9)) ∷ update 2 (some (day 11)) none ∷ delete 1 ∷ []

run_calls-Disjoint_example : Disjoint (run letters calls tables).registrarinvoice
run_calls-Disjoint_example = run_calls-Disjoint letters calls tables tables-Disjoint

text_eq-IsSameName : IsSameName text_eq
text_eq-IsSameName = record {
  flips = λ a b h. subst (λ t. text_eq t a ≡ true) (text_eq→eq a b h) (text_eq_refl a);
  joins = λ a b c h k. subst (λ t. text_eq a t ≡ true) (text_eq→eq b c k) h;
}

abbrev history : RegistrarZoneAccessHistory
history = record {
  registrar_handle = 65 ∷ [];
  invoices_by_zone =
      (
        99 ∷ [],
        (record { from_date = 2; to_date = some 5 }, 1)
            ∷ (record { from_date = 10; to_date = none }, 2)
            ∷ [],
      )
      ∷ [];
}

found : get_zone_access_history letters text_eq (65 ∷ []) tables ≡ ok history
unfolding get_zone_access_history
found = refl

has_access-is_covered_example :
    has_access letters text_eq history (99 ∷ []) 12
    ≡ is_covered letters text_eq text_eq-IsSameName 1 (99 ∷ []) 12 tables
has_access-is_covered_example =
    has_access-is_covered letters text_eq text_eq-IsSameName (65 ∷ []) (99 ∷ []) 12 tables alfa
      history refl found

history-is_covered_example :
    (h : RegistrarZoneAccessHistory) × (get_zone_access_history letters text_eq (65 ∷ []) tables
      ≡ ok h)
    × ((zone : Text) (d : ℕ)
        → has_access letters text_eq h zone d
          ≡ is_covered letters text_eq text_eq-IsSameName 1 zone d tables)
history-is_covered_example =
    history-is_covered letters text_eq text_eq-IsSameName (65 ∷ []) tables alfa refl
      ((refl, tt), (tt, tt)) (refl, (refl, tt)) tables-Disjoint

-- The history of a registrar with a period that ends before it starts.
with_reversed :
    get_zone_access_history letters text_eq
      (65 ∷ [])
      (record tables { registrarinvoice = record past { todate = some 1 } ∷ [] })
    ≡ err undefined_order
unfolding get_zone_access_history
with_reversed = refl
