-- ===== src/Domain/Config/Stored.antt =====
-- The configuration that is stored is the one that is read.
use fred_libfred.Common.{
  ℕ, ◌≡◌, ◌≢◌, refl, sym, ap, fun_ext, ◌∙◌, List, [], ◌∷◌, ◌++◌, map, append-nil, append_assoc,
  arith, Text, text_eq, ◌==◌, any, filter, All, All_mono, Bool, true, false, not, ◌&&◌, ◌||◌, ok,
  ok_injective, ◌+◌, if◌then◌else◌,
}
use fred_libfred.Domain.Zone.{ZoneData, ZoneSql, get_zone, only, rows_named}
use fred_libfred.Domain.Config.{
  CheckerRow, MapRow, ConfigDb, insert_checker, insert_checkers, delete_checkers,
  set_domain_name_validation_config_into_database, is_for_zone, names_in_map,
  get_domain_name_validation_config_for_zone,
}

-- The checker of a name: one row has the name, and one row has the row's id.
abbrev pub HasRow : List CheckerRow → Text → Type 0
HasRow cs n =
    (c : CheckerRow) × (c.name ≡ n)
    × (filter (λ c'. text_eq c'.name n) cs ≡ c ∷ [])
    × (filter (λ c'. c.id == c'.id) cs ≡ c ∷ [])

-- How often a name is among some.
abbrev pub count : Text → List Text → ℕ
count x [] = 0
count x (y ∷ ys) = count x ys + (if text_eq y x then 1 else 0)

filter-append :
    (p : MapRow → Bool) (ms ns : List MapRow) → filter p (ms ++ ns) ≡ filter p ms ++ filter p ns
filter-append p [] ns = refl
filter-append p (m ∷ ms) ns = ground (arith, filter-append p ms ns)

filter_all : (p : MapRow → Bool) (ms : List MapRow) → All (λ m. p m ≡ true) ms → filter p ms ≡ ms
filter_all p [] h = refl
filter_all p (m ∷ ms) (x, h) = ground (arith, filter_all p ms h)

or_false : (x : Bool) → (x || false) ≡ x
or_false true = refl
or_false false = refl

any-filter :
    (p s : ZoneData → Bool) (zs : List ZoneData) → any (λ z. p z && s z) zs ≡ any p (filter s zs)
any-filter p s [] = refl
any-filter p s (z ∷ zs) = ground (arith, any-filter p s zs)

-- What the deletion leaves of a zone, and of another one.
none_left :
    (i : ℕ) (ms : List MapRow)
    → filter (λ m. i == m.zone_id) (filter (λ m. not (m.zone_id == i)) ms) ≡ []
none_left i [] = refl
none_left i (m ∷ ms) = ground (arith, none_left i ms)

others_left :
    (i j : ℕ) (ms : List MapRow)
    → j ≢ i
    → filter (λ m. j == m.zone_id) (filter (λ m. not (m.zone_id == i)) ms)
      ≡ filter (λ m. j == m.zone_id) ms
others_left i j [] ne = refl
others_left i j (m ∷ ms) ne = ground (arith, others_left i j ms ne)

none_of :
    (j i : ℕ) (ms : List MapRow)
    → j ≢ i
    → All (λ m. m.zone_id ≡ i) ms
    → filter (λ m. j == m.zone_id) ms ≡ []
none_of j i [] ne h = refl
none_of j i (m ∷ ms) ne (e, h) = ground (arith, none_of j i ms ne h)

module _ (q : ZoneSql) where
  -- With the zone of a name, the join takes the rows of its id.
  for_zone :
      (zones : List ZoneData) (n : Text) (z : ZoneData) (m : MapRow)
      → get_zone q zones n ≡ ok z
      → is_for_zone q n zones m ≡ (z.id == m.zone_id)
  unfolding get_zone
  for_zone zones n z m e =
      any-filter (λ w. w.id == m.zone_id) (λ w. text_eq w.name (q.lower n)) zones
      ∙ go (rows_named q zones n) e
    where
      go :
          (ws : List ZoneData)
          → only ws ≡ ok z
          → any (λ w. w.id == m.zone_id) ws ≡ (z.id == m.zone_id)
      go [] e = cc
      go (w ∷ []) e = let same = ok_injective e in rw same (or_false (z.id == m.zone_id))
      go (w ∷ w' ∷ ws) e = cc

  -- The rows that are added for some names.
  abbrev added : ℕ → List CheckerRow → List Text → List MapRow
  added zone_id cs [] = []
  added zone_id cs (n ∷ ns) =
      map (λ (c : CheckerRow). record { zone_id = zone_id; checker_id = c.id })
        (filter (λ c. text_eq c.name n) cs)
      ++ added zone_id cs ns

  insert-added :
      (zone_id : ℕ) (ns : List Text) (db : ConfigDb)
      → insert_checkers zone_id ns db
        ≡ record db { checker_map = db.checker_map ++ added zone_id db.enum_checker ns }
  unfolding insert_checkers insert_checker
  insert-added zone_id [] db = rw (append-nil db.checker_map) refl
  insert-added zone_id (n ∷ ns) db =
      insert-added zone_id ns (insert_checker zone_id n db)
      ∙ ap (λ ms. record db { checker_map = ms })
          (append_assoc db.checker_map _ (added zone_id db.enum_checker ns))

  added_zone :
      (zone_id : ℕ) (cs : List CheckerRow) (ns : List Text)
      → All (HasRow cs) ns
      → All (λ m. m.zone_id ≡ zone_id) (added zone_id cs ns)
  added_zone zone_id cs [] h = tt
  added_zone zone_id cs (n ∷ ns) ((c, e, named, keyed), h) =
      rw named (refl, added_zone zone_id cs ns h)

  names-added :
      (zone_id : ℕ) (cs : List CheckerRow) (ns : List Text)
      → All (HasRow cs) ns
      → names_in_map cs (added zone_id cs ns) ≡ ns
  names-added zone_id cs [] h = refl
  names-added zone_id cs (n ∷ ns) ((c, e, named, keyed), h) =
      rw (named, keyed, e, names-added zone_id cs ns h) refl

  -- The rows that the join takes, for the zone's id.
  read :
      (db : ConfigDb) (n : Text) (z : ZoneData)
      → get_zone q db.zone n ≡ ok z
      → get_domain_name_validation_config_for_zone q db n
        ≡ q.any_order
            (names_in_map db.enum_checker (filter (λ m. z.id == m.zone_id) db.checker_map))
  unfolding get_domain_name_validation_config_for_zone
  read db n z e =
      ap (λ p. q.any_order (names_in_map db.enum_checker (filter p db.checker_map)))
        (fun_ext (λ m. for_zone db.zone n z m e))

  abbrev stored : ℕ → List Text → ConfigDb → ConfigDb
  stored i ns db = record db {
    checker_map = filter (λ m. not (m.zone_id == i)) db.checker_map ++ added i db.enum_checker ns;
  }

  set-stored :
      (db : ConfigDb) (n : Text) (ns : List Text) (z : ZoneData)
      → get_zone q db.zone n ≡ ok z
      → set_domain_name_validation_config_into_database q n ns db ≡ ok (stored z.id ns db)
  unfolding set_domain_name_validation_config_into_database delete_checkers
  set-stored db n ns z e = rw e (ap ok (insert-added z.id ns (delete_checkers z.id db)))

  read_stored :
      (db : ConfigDb) (n : Text) (ns : List Text) (z : ZoneData)
      → get_zone q db.zone n ≡ ok z
      → All (HasRow db.enum_checker) ns
      → get_domain_name_validation_config_for_zone q (stored z.id ns db) n ≡ q.any_order ns
  read_stored db n ns z e h =
      read (stored z.id ns db) n z e
      ∙ rw
          (
            filter-append (λ m. z.id == m.zone_id)
                (filter (λ m. not (m.zone_id == z.id)) db.checker_map)
                (added z.id db.enum_checker ns),
            none_left z.id db.checker_map,
            filter_all (λ m. z.id == m.zone_id) (added z.id db.enum_checker ns)
                (All_mono (added z.id db.enum_checker ns) (λ m x. ground arith)
                  (added_zone z.id db.enum_checker ns h)),
          )
          (ap q.any_order (names-added z.id db.enum_checker ns h))

  read_other :
      (db : ConfigDb) (n : Text) (ns : List Text) (i : ℕ) (z : ZoneData)
      → get_zone q db.zone n ≡ ok z
      → z.id ≢ i
      → All (HasRow db.enum_checker) ns
      → get_domain_name_validation_config_for_zone q (stored i ns db) n
        ≡ get_domain_name_validation_config_for_zone q db n
  read_other db n ns i z e ne h =
      read (stored i ns db) n z e
      ∙ rw
          (
            filter-append (λ m. z.id == m.zone_id)
                (filter (λ m. not (m.zone_id == i)) db.checker_map) (added i db.enum_checker ns),
            others_left i z.id db.checker_map ne,
            none_of z.id i (added i db.enum_checker ns) ne (added_zone i db.enum_checker ns h),
            append-nil (filter (λ m. z.id == m.zone_id) db.checker_map),
          )
          (sym (read db n z e))

  -- If the database may reorder the rows of a query but neither drops nor repeats one, the name
  -- has a zone and each checker name has one row, with an id of its own, then storing the
  -- configuration returns; reading it back gives each name as often as it was stored, and what
  -- is read for the name of a zone with another id holds each name as often as before.
  pub get_config-set_config :
      (db : ConfigDb) (zone_name : Text) (checker_names : List Text) (z : ZoneData)
      → ((xs : List Text) (x : Text) → count x (q.any_order xs) ≡ count x xs)
      → get_zone q db.zone zone_name ≡ ok z
      → All (HasRow db.enum_checker) checker_names
      → (after : ConfigDb) × (set_domain_name_validation_config_into_database q zone_name
            checker_names db
          ≡ ok after)
        × ((c : Text)
            → count c (get_domain_name_validation_config_for_zone q after zone_name)
              ≡ count c checker_names)
        × ((n : Text) (w : ZoneData) (c : Text)
            → get_zone q db.zone n ≡ ok w
            → w.id ≢ z.id
            → count c (get_domain_name_validation_config_for_zone q after n)
              ≡ count c (get_domain_name_validation_config_for_zone q db n))
  get_config-set_config db zone_name checker_names z reorders e h = (
    stored z.id checker_names db,
    set-stored db zone_name checker_names z e,
    λ c. ap (count c) (read_stored db zone_name checker_names z e h) ∙ reorders checker_names c,
    λ n w c e' ne. ap (count c) (read_other db n checker_names z.id w e' ne h),
  )
