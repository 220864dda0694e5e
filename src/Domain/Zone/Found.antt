-- ===== src/Domain/Zone/Found.antt =====
-- The zone that is found is a row of the table.
use fred_libfred.Common.{
  ◌≡◌, refl, subst, ok_injective, List, [], ◌∷◌, map, arith, Text, All, All-filter, text_eq,
  Bool-cases, inl, inr, Result, ok, err,
}
use fred_libfred.Domain.Zone.{
  ZoneData, ZoneError, missing_zone_configuration, ZoneSql, find_zone_in_fqdn, get_zone, only,
  or_unknown, try_zones, is_zone_of,
}

-- A property of all the zones is one of the zone that is found.
module _ (q : ZoneSql) (zones : List ZoneData) (P : ZoneData → Type 0) (h : All P zones) where
  get_zone-All : (n : Text) {z : ZoneData} → get_zone q zones n ≡ ok z → P z
  unfolding get_zone
  get_zone-All n e = go _ (All-filter P (λ w. text_eq w.name (q.lower n)) zones h) e
    where
      go : (zs : List ZoneData) {z : ZoneData} → All P zs → only zs ≡ ok z → P z
      go [] a e = cc
      go (z ∷ []) (p, _) e = subst P (ok_injective e) p
      go (z ∷ w ∷ zs) a e = cc

  try_zones-All :
      (fqdn domain : Text) (ns : List Text) {z : ZoneData}
      → try_zones q zones fqdn domain ns ≡ ok z
      → P z
  unfolding try_zones
  try_zones-All fqdn domain [] e = cc
  try_zones-All fqdn domain (n ∷ ns) e = elim (Bool-cases (is_zone_of q domain n)) [
    | inl h ↦ found fqdn n (ground arith)
    | inr h ↦ try_zones-All fqdn domain ns (ground arith)
  ]
    where
      found : (f m : Text) {z : ZoneData} → or_unknown f (get_zone q zones m) ≡ ok z → P z
      found f m e = go (get_zone q zones m) refl e
        where
          go :
              (g : Result ZoneError ZoneData) {z : ZoneData}
              → get_zone q zones m ≡ g
              → or_unknown f g ≡ ok z
              → P z
          go (ok w) made e = subst P (ok_injective e) (get_zone-All m made)
          go (err w) made e = cc

  pub find_zone_in_fqdn-All :
      (fqdn : Text) {z : ZoneData} → find_zone_in_fqdn q zones fqdn ≡ ok z → P z
  unfolding find_zone_in_fqdn
  find_zone_in_fqdn-All fqdn e = go (q.order_by_length_desc (map (λ z. z.name) zones)) e
    where
      go :
          (ns : List Text) {z : ZoneData}
          → (elim ns [
            | [] ↦ err missing_zone_configuration
            | n ∷ rest ↦ try_zones q zones fqdn (q.to_lower_copy fqdn) (n ∷ rest)
          ])
            ≡ ok z
          → P z
      go [] e = cc
      go (n ∷ ns) e = try_zones-All fqdn (q.to_lower_copy fqdn) (n ∷ ns) e
