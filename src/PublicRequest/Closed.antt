-- ===== src/PublicRequest/Closed.antt =====
-- Requests that are closed, one by one or all of a type and an object, stay closed.
use fred_libfred.Common.{
  ℕ, ◌≡◌, refl, sym, subst, ◌∙◌, List, [], ◌∷◌, Text, All, true, false, Bool-cases, ◌⊎◌, inl, inr,
  arith,
}
use fred_libfred.PublicRequest.{TypeIface, RequestRow, is_opened}
use fred_libfred.PublicRequest.Update.{is_opened_of, opened_requests}
use fred_libfred.PublicRequest.Later.{Later, AllLater}

-- No request with the id is opened.
abbrev pub Closed : ℕ → RequestRow → Type 0
Closed id r = r.id ≡ id → is_opened r.status ≡ false

abbrev pub OneOf : ℕ → List ℕ → Type 0
OneOf i [] = ⊥
OneOf i (j ∷ js) = (i ≡ j) ⊎ OneOf i js

module _ (now : ℕ) where
  Later-Closed : (id : ℕ) (x y : RequestRow) → Later now x y → Closed id x → Closed id y
  Later-Closed id x y l c e = elim (Bool-cases (is_opened y.status)) [
    | inl up ↦ cc (l.not_reopened up, c (sym l.same_id ∙ e))
    | inr down ↦ down
  ]

  pub AllLater-Closed :
      (id : ℕ) (xs ys : List RequestRow)
      → AllLater now xs ys
      → All (Closed id) xs
      → All (Closed id) ys
  AllLater-Closed id [] [] l c = tt
  AllLater-Closed id [] (y ∷ ys) l c = absurd l
  AllLater-Closed id (x ∷ xs) [] l c = absurd l
  AllLater-Closed id (x ∷ xs) (y ∷ ys) (l, ls) (c, cs) =
      (Later-Closed id x y l c, AllLater-Closed id xs ys ls cs)

module _ (types : TypeIface) (object_id : ℕ) (name : Text) where
  abbrev pub NoneOpened : List RequestRow → Type 0
  NoneOpened = All (λ r. is_opened_of types object_id name r ≡ false)

  opened_before :
      (now : ℕ) (x y : RequestRow)
      → Later now x y
      → is_opened_of types object_id name y ≡ true
      → (is_opened_of types object_id name x ≡ true) × (is_opened y.status ≡ true)
  opened_before now x y l h = ground (arith, l.same_object, l.same_type, l.not_reopened)

  pub AllLater-NoneOpened :
      (now : ℕ) (xs ys : List RequestRow) → AllLater now xs ys → NoneOpened xs → NoneOpened ys
  AllLater-NoneOpened now [] [] l c = tt
  AllLater-NoneOpened now [] (y ∷ ys) l c = absurd l
  AllLater-NoneOpened now (x ∷ xs) [] l c = absurd l
  AllLater-NoneOpened now (x ∷ xs) (y ∷ ys) (l, ls) (c, cs) = (
    elim (Bool-cases (is_opened_of types object_id name y)) [
      | inl up ↦ cc ((opened_before now x y l up).0, c)
      | inr down ↦ down
    ],
    AllLater-NoneOpened now xs ys ls cs,
  )

  abbrev pub Covered : List ℕ → List RequestRow → Type 0
  Covered ids = All (λ r. is_opened_of types object_id name r ≡ true → OneOf r.id ids)

  cover_more :
      (i : ℕ) (ids : List ℕ) (rows : List RequestRow) → Covered ids rows → Covered (i ∷ ids) rows
  cover_more i ids [] c = tt
  cover_more i ids (r ∷ rows) (c, cs) = (λ h. inr (c h), cover_more i ids rows cs)

  opened_taken :
      (r : RequestRow) (rows : List RequestRow)
      → is_opened_of types object_id name r ≡ true
      → opened_requests types object_id name (r ∷ rows)
        ≡ r.id ∷ opened_requests types object_id name rows
  unfolding opened_requests
  opened_taken r rows e = rw e refl

  opened_passed :
      (r : RequestRow) (rows : List RequestRow)
      → is_opened_of types object_id name r ≡ false
      → opened_requests types object_id name (r ∷ rows) ≡ opened_requests types object_id name rows
  unfolding opened_requests
  opened_passed r rows e = rw e refl

  pub opened_requests-Covered :
      (rows : List RequestRow) → Covered (opened_requests types object_id name rows) rows
  opened_requests-Covered [] = tt
  opened_requests-Covered (r ∷ rows) =
      let found = opened_requests types object_id name in
      elim (Bool-cases (is_opened_of types object_id name r)) [
        | inl e ↦
            subst (λ ids. Covered ids (r ∷ rows)) (sym (opened_taken r rows e))
              (λ h. inl refl, cover_more r.id (found rows) rows (opened_requests-Covered rows))
        | inr e ↦
            subst (λ ids. Covered ids (r ∷ rows)) (sym (opened_passed r rows e))
              (λ h. cc, opened_requests-Covered rows)
      ]

  -- The requests found are closed, so none is left.
  pub Closed-NoneOpened :
      (now : ℕ) (ids : List ℕ) (xs ys : List RequestRow)
      → AllLater now xs ys
      → Covered ids xs
      → ((i : ℕ) → OneOf i ids → All (Closed i) ys)
      → NoneOpened ys
  Closed-NoneOpened now ids [] [] l c closed = tt
  Closed-NoneOpened now ids [] (y ∷ ys) l c closed = absurd l
  Closed-NoneOpened now ids (x ∷ xs) [] l c closed = absurd l
  Closed-NoneOpened now ids (x ∷ xs) (y ∷ ys) (l, ls) (c, cs) closed = (
    elim (Bool-cases (is_opened_of types object_id name y)) [
      | inl up ↦
          let (before, still) = opened_before now x y l up in
          cc (still, (closed x.id (c before)).0 l.same_id)
      | inr down ↦ down
    ],
    Closed-NoneOpened now ids xs ys ls cs (λ i m. (closed i m).1),
  )
