-- ===== src/Registrar/Periods.antt =====
-- Rows that stand for periods of days: no day is covered by two rows with one key.
use fred_libfred.Common.{
  ℕ, ◌≡◌, sym, ◌∙◌, List, [], ◌∷◌, ◌++◌, map, All, All-filter, filter, Bool, true, false,
  Bool-cases, inl, inr,
}

module _ {A K : Type 0} (key : A → K) (covers : A → ℕ → Bool) where
  abbrev pub Apart : A → A → Type 0
  Apart x y = (d : ℕ) → key x ≡ key y → covers x d ≡ true → covers y d ≡ false

  abbrev pub Disjoint : List A → Type 0
  Disjoint [] = Unit
  Disjoint (c ∷ cs) = All (Apart c) cs × Disjoint cs

  -- A row with the same key that covers no more days.
  abbrev pub Within : A → A → Type 0
  Within x y = (key x ≡ key y) × ((d : ℕ) → covers x d ≡ true → covers y d ≡ true)

  Within-Apart : (x x' y y' : A) → Within x' x → Within y' y → Apart x y → Apart x' y'
  Within-Apart x x' y y' (rx, wx) (ry, wy) a d same h = elim (Bool-cases (covers y' d)) [
    | inl on ↦ cc (a d (sym rx ∙ (same ∙ ry)) (wx d h), wy d on)
    | inr off ↦ off
  ]

  pub Apart-sym : (x y : A) → Apart x y → Apart y x
  Apart-sym x y a d same h = elim (Bool-cases (covers x d)) [
    | inl on ↦ cc (a d (sym same) on, h)
    | inr off ↦ off
  ]

  module _ (f : A → A) (within : (c : A) → Within (f c) c) where
    map-Apart : (x : A) (cs : List A) → All (Apart x) cs → All (Apart (f x)) (map f cs)
    map-Apart x [] h = tt
    map-Apart x (c ∷ cs) (a, h) =
        (Within-Apart x (f x) c (f c) (within x) (within c) a, map-Apart x cs h)

    pub map-Disjoint : (cs : List A) → Disjoint cs → Disjoint (map f cs)
    map-Disjoint [] h = tt
    map-Disjoint (c ∷ cs) (a, h) = (map-Apart c cs a, map-Disjoint cs h)

  pub filter-Disjoint : (p : A → Bool) (cs : List A) → Disjoint cs → Disjoint (filter p cs)
  filter-Disjoint p [] h = tt
  filter-Disjoint p (c ∷ cs) (a, h) = elim (Bool-cases (p c)) [
    | inl e ↦ rw e (All-filter (Apart c) p cs a, filter-Disjoint p cs h)
    | inr e ↦ rw e (filter-Disjoint p cs h)
  ]

  append-Apart :
      (x c : A) (cs : List A) → All (Apart x) cs → Apart x c → All (Apart x) (cs ++ c ∷ [])
  append-Apart x c [] h a = (a, tt)
  append-Apart x c (y ∷ cs) (b, h) a = (b, append-Apart x c cs h a)

  pub append-Disjoint :
      (c : A) (cs : List A) → All (λ x. Apart x c) cs → Disjoint cs → Disjoint (cs ++ c ∷ [])
  append-Disjoint c [] a h = (tt, tt)
  append-Disjoint c (x ∷ cs) (b, a) (g, h) = (append-Apart x c cs g b, append-Disjoint c cs a h)
