-- ===== src/Domain/CheckDomain/Available.antt =====
-- When a name can be registered.
use fred_libfred.Boost.{StringAlgorithms, RegexEngine}
use fred_libfred.Common.{
  ℕ, ◌≡◌, refl, sym, subst, ok_injective, ap, ◌∙◌, ◌⊎◌, Text, filter, text_eq_refl, Bool, true,
  false, not, ◌||◌, Bool-cases, inl, inr, Result, ok, err, ◌>>=◌,
}
use fred_libfred.Domain.Name.{
  DomainName, rem_trailing_dot, is_rfc1123_compliant_host_name, of_string,
}
use fred_libfred.Domain.Name.Compliant.{compliant-of_string}
use fred_libfred.Domain.Zone.{ZoneData, unknown_zone_in_fqdn, is_zone_of}
use fred_libfred.Domain.Zone.Found.{find_zone_in_fqdn-All}
use fred_libfred.Domain.Zone.Longest.{find_zone_in_fqdn_longest}
use fred_libfred.Domain.Validator.Verdict.{Known}
use fred_libfred.Domain.CheckDomain.{
  CheckDb, CheckSql, CheckError, zone_or_none, find_zone, fails_validation, is_invalid_syntax,
  has_too_many_labels, is_bad_length, is_blacklisted, conflicts_in_zone, is_registered,
  is_available, or_else, is_some, name_of,
}
use fred_libfred.Domain.CheckDomain.Syntax.{
  checkers, all_pass, more_labels, fails_validation-verdict,
}
use fred_libfred.Domain.CheckDomain.Conditions.{
  IsConfigured, CanRegister, zone_of, answer, answer_iff,
}

module _ (b : StringAlgorithms) (r : RegexEngine) (q : CheckSql) (db : CheckDb)
    (c : IsConfigured b r q db) (now : ℕ) (system : Bool) (fqdn : Text) where
  abbrev pub Decides : Result CheckError Bool → Type 0
  Decides m =
      ((z : ZoneData) × CanRegister b r q db now system fqdn z × (m ≡ ok true))
      ⊎ (((z : ZoneData) → CanRegister b r q db now system fqdn z → ⊥) × (m ≡ ok false))

  not_host_name :
      is_rfc1123_compliant_host_name b fqdn ≡ false
      → Decides (is_available b r q db now system fqdn)
  unfolding is_available is_invalid_syntax
  not_host_name h = inr ((λ z x. cc (x.host_name, h)), rw h refl)

  no_zone :
      is_rfc1123_compliant_host_name b fqdn ≡ true
      → zone_of b r q db fqdn ≡ err (unknown_zone_in_fqdn (rem_trailing_dot fqdn))
      → Decides (is_available b r q db now system fqdn)
  unfolding is_available is_invalid_syntax find_zone zone_or_none
  no_zone h e =
      inr ((λ z x. cc (x.in_zone, e)), rw (h, e, text_eq_refl (rem_trailing_dot fqdn)) refl)

  ors :
      (x y z w : Bool)
      → (or_else b r q db (ok x) (or_else b r q db (ok y) (or_else b r q db (ok z) (ok w)))
          >>= λ taken. ok (not taken))
        ≡ ok (not (x || y || z || w))
  ors false false false w = refl
  ors false false true w = refl
  ors false true z w = refl
  ors true y z w = refl

  answered :
      (zone : ZoneData) (pass : Bool)
      → is_rfc1123_compliant_host_name b fqdn ≡ true
      → zone_of b r q db fqdn ≡ ok zone
      → fails_validation b r q db system fqdn zone ≡ ok (not pass)
      → is_available b r q db now system fqdn ≡ ok (answer b r q db c now system fqdn zone pass)
  unfolding is_available is_invalid_syntax is_bad_length is_registered find_zone zone_or_none
  answered zone pass h e v =
      rw (h, e, v)
        (ors (not pass) (has_too_many_labels b r q db (rem_trailing_dot fqdn) zone)
          (is_some b r q db (
            name_of b r q db (
              q.limit_1
                (filter (conflicts_in_zone b r q db (rem_trailing_dot fqdn) zone) db.domains))))
          (is_blacklisted b r q db now fqdn))

  in_the_zone :
      (zone : ZoneData)
      → is_rfc1123_compliant_host_name b fqdn ≡ true
      → zone_of b r q db fqdn ≡ ok zone
      → is_zone_of q.zone_sql (q.zone_sql.to_lower_copy (rem_trailing_dot fqdn)) zone.name ≡ true
      → Decides (is_available b r q db now system fqdn)
  in_the_zone zone h e below' =
      let (zone_name, ez) =
        find_zone_in_fqdn-All q.zone_sql db.config.zone
          (λ z. (zn : DomainName) × (of_string b z.name ≡ ok zn)) c.readable (rem_trailing_dot fqdn)
          e in
      let k =
        find_zone_in_fqdn-All q.zone_sql db.config.zone (λ z. Known (checkers b r q db z)) c.known
          (rem_trailing_dot fqdn) e in
      let (d, ed, v, glued) = compliant-of_string b fqdn h in
      let more =
        more_labels b r q db (rem_trailing_dot fqdn) _ zone d v glued
          (c.keeps_dots (rem_trailing_dot fqdn)) below' in
      let verdict =
        fails_validation-verdict b r q db system fqdn
          (q.zone_sql.to_lower_copy (rem_trailing_dot fqdn)) zone zone_name d ez ed v k more in
      decide zone zone_name d h e ez ed
        (answered zone (all_pass b r q db system zone zone_name d) h e verdict)
    where
      decide :
          (zone : ZoneData) (zone_name d : DomainName)
          → is_rfc1123_compliant_host_name b fqdn ≡ true
          → zone_of b r q db fqdn ≡ ok zone
          → of_string b zone.name ≡ ok zone_name
          → of_string b fqdn ≡ ok d
          → is_available b r q db now system fqdn
            ≡ ok
                (answer b r q db c now system fqdn zone (all_pass b r q db system zone zone_name d))
          → Decides (is_available b r q db now system fqdn)
      decide zone zone_name d h e ez ed m =
          let iff = answer_iff b r q db c now system fqdn zone zone_name d h e ez ed in
          elim (Bool-cases
            (answer b r q db c now system fqdn zone (all_pass b r q db system zone zone_name d))) [
              | inl y ↦ inl (zone, iff.0 y, m ∙ ap ok y)
              | inr n ↦ inr (
                (λ z x.
                    let same : z ≡ zone = ok_injective (sym x.in_zone ∙ e) in
                    cc (iff.1 (subst (CanRegister b r q db now system fqdn) same x), n)),
                m ∙ ap ok n,
              )
            ]

  -- On a configured database (a table of zones with names that can be read and registered
  -- checkers, a change of case that keeps the dots, a LIMIT 1 that leaves a row if there is
  -- one), is_available throws nothing: it says true for a name that can be registered in some
  -- zone, and false for a name that can be registered in none.
  pub is_available-Decides : Decides (is_available b r q db now system fqdn)
  is_available-Decides = elim (Bool-cases (is_rfc1123_compliant_host_name b fqdn)) [
    | inr h ↦ not_host_name h
    | inl h ↦
        elim (find_zone_in_fqdn_longest q.zone_sql db.config.zone (rem_trailing_dot fqdn) c.table
          c.not_empty) [
            | inl (z, e, fits, longest) ↦ in_the_zone z h e fits
            | inr (e, none') ↦ no_zone h e
          ]
  ]
