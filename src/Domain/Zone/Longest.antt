-- ===== src/Domain/Zone/Longest.antt =====
-- What `find_zone_in_fqdn` finds: the longest zone above the name.
use fred_libfred.Common.{
  ◌≤◌, ◌≡◌, refl, ◌≢◌, ◌⊎◌, inl, inr, List, [], ◌∷◌, arith, Text, text_eq, length, filter, All,
  All_mono, true, false, Bool-cases, Result, ok, err,
}
use fred_libfred.Domain.Zone.{
  ZoneData, ZoneError, unknown_zone_in_fqdn, ZoneSql, get_zone, is_zone_of, try_zones,
  find_zone_in_fqdn,
}
use fred_libfred.Domain.Zone.Search.{Descends, names, IsZoneTable, filter_one, All-names, names-All}

module _ (q : ZoneSql) (zones : List ZoneData) where
  -- The row of a name.
  abbrev Has : Text → Type 0
  Has n = (z : ZoneData) × (get_zone q zones n ≡ ok z) × (z.name ≡ n)

  row_of :
      (z : ZoneData)
      → q.lower z.name ≡ z.name
      → filter (λ w. text_eq w.name z.name) zones ≡ z ∷ []
      → Has z.name
  unfolding get_zone
  row_of z low one = (z, rw (low, one), refl)

  rows :
      (zs : List ZoneData)
      → All (λ z. q.lower z.name ≡ z.name) zs
      → All (λ z. filter (λ w. text_eq w.name z.name) zones ≡ z ∷ []) zs
      → All (λ z. Has z.name) zs
  rows [] _ _ = tt
  rows (z ∷ zs) (low, lows) (one, ones) = (row_of z low one, rows zs lows ones)

  abbrev Longest : Text → List Text → ZoneData → Type 0
  Longest domain ns z =
      (is_zone_of q domain z.name ≡ true)
      × All (λ m. is_zone_of q domain m ≡ true → length m ≤ length z.name) ns

  abbrev Outcome : Text → Text → List Text → Result ZoneError ZoneData → Type 0
  Outcome fqdn domain ns result =
      ((z : ZoneData) × (result ≡ ok z) × Longest domain ns z)
      ⊎ ((result ≡ err (unknown_zone_in_fqdn fqdn)) × All (λ m. is_zone_of q domain m ≡ false) ns)

  found :
      (fqdn domain n : Text) (ns : List Text)
      → Has n
      → is_zone_of q domain n ≡ true
      → All (λ m. length m ≤ length n) ns
      → Outcome fqdn domain (n ∷ ns) (try_zones q zones fqdn domain (n ∷ ns))
  unfolding try_zones
  found fqdn domain n ns (z, e, same) h shorter = inl (
    z,
    rw (h, e) refl,
    (
      rw same h,
      (
        λ _. rw same (omega arith),
        All_mono ns (λ m (le : length m ≤ length n) _. rw same le) shorter,
      ),
    ),
  )

  later :
      (fqdn domain n : Text) (ns : List Text)
      → is_zone_of q domain n ≡ false
      → Outcome fqdn domain ns (try_zones q zones fqdn domain ns)
      → Outcome fqdn domain (n ∷ ns) (try_zones q zones fqdn domain (n ∷ ns))
  unfolding try_zones
  later fqdn domain n ns h (inl (z, e, (fits, longest))) =
      inl (z, rw h e, (fits, (λ passed. cc, longest)))
  later fqdn domain n ns h (inr (e, none')) = inr (rw h e, (h, none'))

  try_zones-Outcome :
      (fqdn domain : Text) (ns : List Text)
      → All Has ns
      → Descends ns
      → Outcome fqdn domain ns (try_zones q zones fqdn domain ns)
  try_zones-Outcome fqdn domain [] _ _ = unfold try_zones in inr (refl, tt)
  try_zones-Outcome fqdn domain (n ∷ ns) (has, hs) (shorter, ds) =
      elim (Bool-cases (is_zone_of q domain n)) [
        | inl h ↦ found fqdn domain n ns has h shorter
        | inr h ↦ later fqdn domain n ns h (try_zones-Outcome fqdn domain ns hs ds)
      ]

  -- over the table, in place of the answer
  abbrev pub ZoneOutcome : Text → Text → Result ZoneError ZoneData → Type 0
  ZoneOutcome fqdn domain result =
      ((z : ZoneData) × (result ≡ ok z)
        × (is_zone_of q domain z.name ≡ true)
        × All (λ w. is_zone_of q domain w.name ≡ true → length w.name ≤ length z.name) zones)
      ⊎ ((result ≡ err (unknown_zone_in_fqdn fqdn))
          × All (λ w. is_zone_of q domain w.name ≡ false) zones)

  to_table :
      (t : IsZoneTable q zones) (fqdn domain : Text) (result : Result ZoneError ZoneData)
      → Outcome fqdn domain (q.order_by_length_desc (names zones)) result
      → ZoneOutcome fqdn domain result
  to_table t fqdn domain result (inl (z, e, (fits, longest))) = inl (
    z,
    e,
    fits,
    names-All _ zones
        ((t.same (λ m. is_zone_of q domain m ≡ true → length m ≤ length z.name)).1 longest),
  )
  to_table t fqdn domain result (inr (e, none')) =
      inr (e, names-All _ zones ((t.same (λ m. is_zone_of q domain m ≡ false)).1 none'))

  find-try :
      (fqdn : Text)
      → q.order_by_length_desc (names zones) ≢ []
      → find_zone_in_fqdn q zones fqdn
        ≡ try_zones q zones fqdn (q.to_lower_copy fqdn) (q.order_by_length_desc (names zones))
  unfolding find_zone_in_fqdn
  find-try fqdn ne = ground arith

  not_empty : IsZoneTable q zones → zones ≢ [] → q.order_by_length_desc (names zones) ≢ []
  not_empty t ne e = ne (empty zones (((t.same (λ _. ⊥)).1 (rw e tt))))
    where
      empty : (zs : List ZoneData) → All (λ _. ⊥) (names zs) → zs ≡ []
      empty [] h = refl
      empty (z ∷ zs) (h, _) = absurd h

  -- With a table of zones that is not empty, in lower case, each once, which the database
  -- answers from the longest to the shortest, the search finds a zone above the name, and no
  -- zone of the table that is above it is longer; or none is above it, and it throws
  -- unknown_zone_in_fqdn.
  pub find_zone_in_fqdn_longest :
      (fqdn : Text)
      → IsZoneTable q zones
      → zones ≢ []
      → ZoneOutcome fqdn (q.to_lower_copy fqdn) (find_zone_in_fqdn q zones fqdn)
  find_zone_in_fqdn_longest fqdn t ne =
      let has = rows zones (names-All _ zones t.lower_case) (filter_one zones t.distinct) in
      let all_has = (t.same Has).0 (All-names Has zones has) in
      rw (find-try fqdn (not_empty t ne)) (
        to_table t fqdn (q.to_lower_copy fqdn) _
          (try_zones-Outcome fqdn (q.to_lower_copy fqdn) _ all_has t.descends))
