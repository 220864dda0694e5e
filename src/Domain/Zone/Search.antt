-- ===== src/Domain/Zone/Search.antt =====
-- When a candidate passes the test of `find_zone_in_fqdn`, and tables with one row for a name.
use fred_libfred.Common.{
  ◌-◌, ◌≤◌, ◌<◌, ◌≡◌, refl, sym, ap, ◌∙◌, ◌≢◌, ◌↔◌, List, [], ◌∷◌, ◌++◌, map, arith, Text, text_eq,
  text_eq_refl, text_eq→eq, length, filter, drop, take, take-append-drop, length-drop, length-take,
  drop-append, length-append, All, true,
}
use fred_libfred.Domain.Name.{dot}
use fred_libfred.Domain.Zone.{ZoneData, ZoneSql, is_prefix, occurs, is_zone_of}

is_prefix→append : (p s : Text) → is_prefix p s ≡ true → (rest : Text) × (s ≡ p ++ rest)
is_prefix→append [] s h = (s, refl)
is_prefix→append (c ∷ p) [] h = cc
is_prefix→append (c ∷ p) (d ∷ s) h = go (is_prefix→append p s (ground arith))
  where
    go : (rest : Text) × (s ≡ p ++ rest) → (rest : Text) × (d ∷ s ≡ (c ∷ p) ++ rest)
    go (rest, e) = (rest, ground arith)

is_prefix_refl : (p : Text) → is_prefix p p ≡ true
is_prefix_refl [] = refl
is_prefix_refl (c ∷ p) = ground (arith, is_prefix_refl p)

is_prefix-length : (p s : Text) → is_prefix p s ≡ true → length p ≤ length s
is_prefix-length [] s h = omega arith
is_prefix-length (c ∷ p) [] h = cc
is_prefix-length (c ∷ p) (d ∷ s) h = ground (arith, is_prefix-length p s)

is_prefix_same : (p s : Text) → length s ≡ length p → is_prefix p s ≡ true → s ≡ p
is_prefix_same [] [] e h = refl
is_prefix_same [] (d ∷ s) e h = absurd (omega arith)
is_prefix_same (c ∷ p) [] e h = cc
is_prefix_same (c ∷ p) (d ∷ s) e h = ground (arith, is_prefix_same p s)

occurs-length : (p s : Text) → occurs p s ≡ true → length p ≤ length s
occurs-length p [] h = is_prefix-length p [] h
occurs-length p (d ∷ s) h = ground (arith, is_prefix-length p (d ∷ s), occurs-length p s)

-- A text occurs in one of its own length only if it is that text.
occurs_same : (p s : Text) → length s ≡ length p → occurs p s ≡ true → s ≡ p
occurs_same p [] e h = is_prefix_same p [] e h
occurs_same p (d ∷ s) e h = ground (arith, is_prefix_same p (d ∷ s) e, occurs-length p s)

occurs_refl : (p : Text) → occurs p p ≡ true
occurs_refl [] = refl
occurs_refl (c ∷ p) = ground (arith, is_prefix_refl p)

module _ (q : ZoneSql) where
  -- The name is some text, a dot and the zone.
  abbrev pub Below : Text → Text → Type 0
  Below domain zone = (init : Text) × (init ≢ []) × (domain ≡ init ++ dot ∷ zone)

  test_passed :
      (domain zone : Text)
      → is_zone_of q domain zone ≡ true
      → (length (dot ∷ zone) < length domain)
        × (occurs (dot ∷ zone) (drop (length domain - length (dot ∷ zone)) domain) ≡ true)
  unfolding is_zone_of
  test_passed domain zone h = ground arith

  test_passes :
      (domain zone : Text)
      → length (dot ∷ zone) < length domain
      → occurs (dot ∷ zone) (drop (length domain - length (dot ∷ zone)) domain) ≡ true
      → is_zone_of q domain zone ≡ true
  unfolding is_zone_of
  test_passes domain zone lt h = ground arith

  to_Below : (domain zone : Text) → is_zone_of q domain zone ≡ true → Below domain zone
  to_Below domain zone h =
      let (lt, found) = test_passed domain zone h in
      let n = length domain - length (dot ∷ zone) in
      let same : drop n domain ≡ dot ∷ zone =
        occurs_same (dot ∷ zone) (drop n domain) (omega (arith, length-drop n domain)) found in
      (
        take n domain,
        λ e. omega (arith, ap length e, length-take n domain (omega arith)),
        sym (take-append-drop n domain) ∙ ap (◌++◌ (take n domain)) same,
      )

  of_Below : (domain zone : Text) → Below domain zone → is_zone_of q domain zone ≡ true
  of_Below domain zone ([], ne, e) = absurd (ne refl)
  of_Below domain zone (c ∷ init, ne, e) =
      let size = length-append (c ∷ init) (dot ∷ zone) in
      rw e (
        test_passes ((c ∷ init) ++ dot ∷ zone) zone (omega (arith, size))
          (rw start (occurs_refl (dot ∷ zone))))
    where
      start :
          drop (length ((c ∷ init) ++ dot ∷ zone) - length (dot ∷ zone)) ((c ∷ init) ++ dot ∷ zone)
          ≡ dot ∷ zone
      start =
          ap (λ n. drop n ((c ∷ init) ++ dot ∷ zone)) {y = length (c ∷ init)}
            (omega (arith, length-append (c ∷ init) (dot ∷ zone)))
          ∙ drop-append (c ∷ init) (dot ∷ zone)

  pub is_zone_of_iff : (domain zone : Text) → (is_zone_of q domain zone ≡ true) ↔ Below domain zone
  is_zone_of_iff domain zone = (to_Below domain zone, of_Below domain zone)

-- The table of zones: names in lower case, each once.
abbrev pub Distinct : List ZoneData → Type 0
Distinct [] = Unit
Distinct (z ∷ zs) = All (λ w. w.name ≢ z.name) zs × Distinct zs

abbrev pub Descends : List Text → Type 0
Descends [] = Unit
Descends (n ∷ ns) = All (λ m. length m ≤ length n) ns × Descends ns

abbrev pub names : List ZoneData → List Text
names = map (λ z. z.name)

-- What the search relies on: the zones' names are in lower case and distinct, and the database
-- answers with the same names, from the longest to the shortest.
pub record IsZoneTable (q : ZoneSql) (zones : List ZoneData) : Type 1 where
  pub lower_case : All (λ n. q.lower n ≡ n) (names zones)
  pub distinct : Distinct zones
  pub same :
      (P : Text → Type 0) → All P (names zones) ↔ All P (q.order_by_length_desc (names zones))
  pub descends : Descends (q.order_by_length_desc (names zones))

filter_none :
    (n : Text) (zs : List ZoneData)
    → All (λ w. w.name ≢ n) zs
    → filter (λ w. text_eq w.name n) zs ≡ []
filter_none n [] h = refl
filter_none n (w ∷ zs) (ne, h) = ground (arith, text_eq→eq w.name n, filter_none n zs h)

pub filter_one :
    (zs : List ZoneData)
    → Distinct zs
    → All (λ z. filter (λ w. text_eq w.name z.name) zs ≡ z ∷ []) zs
filter_one [] d = tt
filter_one (y ∷ ys) (ne, d) = (here, both ys ne (filter_one ys d))
  where
    here : filter (λ w. text_eq w.name y.name) (y ∷ ys) ≡ y ∷ []
    here = ground (arith, text_eq_refl y.name, filter_none y.name ys ne)

    both :
        (zs : List ZoneData)
        → All (λ w. w.name ≢ y.name) zs
        → All (λ z. filter (λ w. text_eq w.name z.name) ys ≡ z ∷ []) zs
        → All (λ z. filter (λ w. text_eq w.name z.name) (y ∷ ys) ≡ z ∷ []) zs
    both [] _ _ = tt
    both (z ∷ zs) (n, ns) (e, es) = (ground (arith, text_eq→eq y.name z.name), both zs ns es)

pub All-names : (P : Text → Type 0) (zs : List ZoneData) → All (λ z. P z.name) zs → All P (names zs)
All-names P [] h = tt
All-names P (z ∷ zs) (x, h) = (x, All-names P zs h)

pub names-All : (P : Text → Type 0) (zs : List ZoneData) → All P (names zs) → All (λ z. P z.name) zs
names-All P [] h = tt
names-All P (z ∷ zs) (x, h) = (x, names-All P zs h)
