-- ===== src/Domain/CheckDomain/Conditions.antt =====
-- The conditions under which a name can be registered, and the tests that decide them.
use fred_libfred.Boost.{StringAlgorithms, RegexEngine}
use fred_libfred.Common.{
  ℕ, ◌+◌, ◌≤◌, ◌≡◌, ◌≢◌, refl, sym, ok_injective, ◌∙◌, ◌↔◌, List, [], ◌∷◌, arith, Text, All, filter,
  Bool, true, false, not, ◌&&◌, ◌||◌, ltb, leb, any, Bool-cases, inl, inr, Result, ok, Option, none,
  some,
}
use fred_libfred.Domain.Name.{
  DomainName, rem_trailing_dot, is_rfc1123_compliant_host_name, of_string,
}
use fred_libfred.Domain.Zone.{ZoneData, ZoneError, find_zone_in_fqdn}
use fred_libfred.Domain.Zone.Search.{IsZoneTable}
use fred_libfred.Domain.Validator.Verdict.{Known}
use fred_libfred.Domain.Blacklist.{BlacklistRow, ends_after}
use fred_libfred.Domain.Blacklist.Intervals.{HoldsAt}
use fred_libfred.Domain.CheckDomain.{
  CheckDb, CheckSql, DomainRow, count_dots, has_too_many_labels, is_blacklisted, conflicts_in_zone,
  is_some, name_of,
}
use fred_libfred.Domain.CheckDomain.Syntax.{checkers, all_pass}

module _ (b : StringAlgorithms) (r : RegexEngine) (q : CheckSql) (db : CheckDb) where
  -- What the check relies on: a table of zones with names that can be read and checkers that are
  -- registered, a change of case that keeps the dots, and a `LIMIT 1` that leaves a row if there is
  -- one.
  pub record IsConfigured : Type 1 where
    pub table : IsZoneTable q.zone_sql db.config.zone
    pub not_empty : db.config.zone ≢ []
    pub readable :
        All (λ z. (zone_name : DomainName) × (of_string b z.name ≡ ok zone_name)) db.config.zone
    pub known : All (λ z. Known (checkers b r q db z)) db.config.zone
    pub keeps_dots : (s : Text) → count_dots (q.zone_sql.to_lower_copy s) ≡ count_dots s
    pub limit_1_iff : (ds : List DomainRow) → (q.limit_1 ds ≡ none) ↔ (ds ≡ [])

  abbrev pub zone_of : Text → Result ZoneError ZoneData
  zone_of fqdn = find_zone_in_fqdn q.zone_sql db.config.zone (rem_trailing_dot fqdn)

  -- The name can be registered: it is a host name, it has a zone, the checkers of the zone pass, it
  -- has no more labels than the zone allows, no domain is in the way and no entry of the blacklist
  -- that its text matches holds now.
  pub record CanRegister (now : ℕ) (system : Bool) (fqdn : Text) (zone : ZoneData) : Type 0 where
    pub host_name : is_rfc1123_compliant_host_name b fqdn ≡ true
    pub in_zone : zone_of fqdn ≡ ok zone
    pub passes :
        (zone_name d : DomainName)
        → of_string b zone.name ≡ ok zone_name
        → of_string b fqdn ≡ ok d
        → all_pass b r q db system zone zone_name d ≡ true
    pub short : count_dots (rem_trailing_dot fqdn) ≤ count_dots zone.name + zone.dots_max
    pub free :
        All (λ d. conflicts_in_zone b r q db (rem_trailing_dot fqdn) zone d ≡ false) db.domains
    pub allowed :
        All
          (λ e. q.matches (rem_trailing_dot fqdn) e.regexp ≡ true → HoldsAt now e → ⊥)
          db.domain_blacklist

  module _ (c : IsConfigured) (now : ℕ) (system : Bool) (fqdn : Text) where
    -- The answer where the zone is found and the validation answers.
    abbrev pub answer : ZoneData → Bool → Bool
    answer zone pass = not (
        not pass
        || has_too_many_labels b r q db (rem_trailing_dot fqdn) zone
        || is_some b r q db (
            name_of b r q db (
              q.limit_1
                (filter (conflicts_in_zone b r q db (rem_trailing_dot fqdn) zone) db.domains)))
        || is_blacklisted b r q db now fqdn)

    filter_nil_iff :
        (p : DomainRow → Bool) (ds : List DomainRow)
        → (filter p ds ≡ []) ↔ All (λ d. p d ≡ false) ds
    filter_nil_iff p [] = (λ h. tt, λ h. refl)
    filter_nil_iff p (d ∷ ds) = elim (Bool-cases (p d)) [
      | inl h ↦ (λ e. ground arith, λ a. ground arith)
      | inr h ↦ (
        λ e. (h, (filter_nil_iff p ds).0 (ground arith)),
        λ (_, a). ground (arith, (filter_nil_iff p ds).1 a),
      )
    ]

    none_iff : (o : Option DomainRow) → (is_some b r q db (name_of b r q db o) ≡ false) ↔ (o ≡ none)
    none_iff none = (λ h. refl, λ h. refl)
    none_iff (some d) = (λ h. cc, λ h. cc)

    no_conflict_iff :
        (p : DomainRow → Bool) (ds : List DomainRow)
        → (is_some b r q db (name_of b r q db (q.limit_1 (filter p ds))) ≡ false)
          ↔ All (λ d. p d ≡ false) ds
    no_conflict_iff p ds =
        let x = none_iff (q.limit_1 (filter p ds)) in
        let y = c.limit_1_iff (filter p ds) in
        let z = filter_nil_iff p ds in (λ h. z.0 (y.0 (x.0 h)), λ a. x.1 (y.1 (z.1 a)))

    not_blacklisted_iff :
        (es : List BlacklistRow)
        → (any
              (λ e.
                q.matches (rem_trailing_dot fqdn) e.regexp
                && leb e.valid_from now
                && ends_after now e.valid_to)
              es
            ≡ false)
          ↔ All (λ e. q.matches (rem_trailing_dot fqdn) e.regexp ≡ true → HoldsAt now e → ⊥) es
    not_blacklisted_iff [] = (λ h. tt, λ h. refl)
    not_blacklisted_iff (e ∷ es) = (
      λ h. ((λ m (f, t). ground arith), (not_blacklisted_iff es).0 (ground arith)),
      λ (f, a). ground (arith, (not_blacklisted_iff es).1 a),
    )

    four_iff :
        (x y z w : Bool)
        → (not (not x || y || z || w) ≡ true)
          ↔ ((x ≡ true) × (y ≡ false) × (z ≡ false) × (w ≡ false))
    four_iff false y z w = (λ h. cc, λ h. cc)
    four_iff true true z w = (λ h. cc, λ h. cc)
    four_iff true false true w = (λ h. cc, λ h. cc)
    four_iff true false false true = (λ h. cc, λ h. cc)
    four_iff true false false false = (λ h. (refl, refl, refl, refl), λ h. refl)

    short_iff :
        (zone : ZoneData)
        → (has_too_many_labels b r q db (rem_trailing_dot fqdn) zone ≡ false)
          ↔ (count_dots (rem_trailing_dot fqdn) ≤ count_dots zone.name + zone.dots_max)
    unfolding has_too_many_labels
    short_iff zone = (
      λ h. go (count_dots (rem_trailing_dot fqdn)) (count_dots zone.name) zone.dots_max h,
      λ h. back (count_dots (rem_trailing_dot fqdn)) (count_dots zone.name) zone.dots_max h,
    )
      where
        go : (m n k : ℕ) → ltb (n + 1 + k) (m + 1) ≡ false → m ≤ n + k
        go m n k h = ground arith

        back : (m n k : ℕ) → m ≤ n + k → ltb (n + 1 + k) (m + 1) ≡ false
        back m n k h = ground arith

    allowed_iff :
        (is_blacklisted b r q db now fqdn ≡ false)
        ↔ All
            (λ e. q.matches (rem_trailing_dot fqdn) e.regexp ≡ true → HoldsAt now e → ⊥)
            db.domain_blacklist
    unfolding is_blacklisted
    allowed_iff = not_blacklisted_iff db.domain_blacklist

    pub answer_iff :
        (zone : ZoneData) (zone_name d : DomainName)
        → is_rfc1123_compliant_host_name b fqdn ≡ true
        → zone_of fqdn ≡ ok zone
        → of_string b zone.name ≡ ok zone_name
        → of_string b fqdn ≡ ok d
        → (answer zone (all_pass b r q db system zone zone_name d) ≡ true)
          ↔ CanRegister now system fqdn zone
    answer_iff zone zone_name d h e ez ed =
        let four =
          four_iff (all_pass b r q db system zone zone_name d)
            (has_too_many_labels b r q db (rem_trailing_dot fqdn) zone)
            (is_some b r q db (
              name_of b r q db (
                q.limit_1
                  (filter (conflicts_in_zone b r q db (rem_trailing_dot fqdn) zone) db.domains))))
            (is_blacklisted b r q db now fqdn) in
        let free =
          no_conflict_iff (conflicts_in_zone b r q db (rem_trailing_dot fqdn) zone) db.domains in
        (
          λ a.
              let (p, s, n, w) = four.0 a in
              record {
                host_name = h;
                in_zone = e;
                passes = λ zn d' ez' ed'.
                    rw (ok_injective (sym ez' ∙ ez), ok_injective (sym ed' ∙ ed)) p;
                short = (short_iff zone).0 s;
                free = free.0 n;
                allowed = allowed_iff.0 w;
              },
          λ x. four.1 (
            x.passes zone_name d ez ed,
            (short_iff zone).1 x.short,
            free.1 x.free,
            allowed_iff.1 x.allowed,
          ),
        )
