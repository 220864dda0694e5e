-- ===== src/Domain/Blacklist/Intervals.antt =====
-- When an entry is made, and that the entries of one pattern do not overlap.
use fred_libfred.Common.{
  ℕ, ◌≤◌, ◌<◌, ◌≡◌, refl, ◌↔◌, ◌⊎◌, List, [], ◌∷◌, ◌++◌, arith, Text, text_eq, text_eq_iff, leb,
  All, All-append, All_mono, any-false→All, All→any-false, Bool, true, false, ◌&&◌, Bool-cases, inl,
  inr, ok, Option, none, some, Option-cases,
}
use fred_libfred.ObjectState.{ObjectRow}
use fred_libfred.ObjectState.StateIds.{find_object}
use fred_libfred.Domain.Blacklist.{
  BlacklistRow, CreateDomainNameBlacklistId, is_out_of_turn, is_in_the_way, is_blacklisted,
  ends_after, from_or_now, new_row, fqdn_to_regexp, create_domain_name_blacklist_id,
}

-- The moments at which an entry holds.
abbrev pub HoldsAt : ℕ → BlacklistRow → Type 0
HoldsAt t r = (r.valid_from ≤ t) × (ends_after t r.valid_to ≡ true)

-- An interval that ends does not end before it starts.
abbrev pub Ordered : ℕ → Option ℕ → Type 0
Ordered from none = Unit
Ordered from (some to) = from ≤ to

-- An interval is over at a moment, or starts after the end of another.
abbrev pub Over : ℕ → Option ℕ → Type 0
Over from none = ⊥
Over from (some to) = to ≤ from

abbrev pub StartsAfter : ℕ → Option ℕ → Type 0
StartsAfter from none = ⊥
StartsAfter from (some to) = to < from

module _ (lower : Text → Text) where
  -- Entries of one pattern, up to case, have no moment in common.
  abbrev pub Apart : BlacklistRow → BlacklistRow → Type 0
  Apart r s = lower r.regexp ≡ lower s.regexp → (t : ℕ) → HoldsAt t r → HoldsAt t s → ⊥

  abbrev pub Exclusive : List BlacklistRow → Type 0
  Exclusive [] = Unit
  Exclusive (r ∷ rs) = All (Apart r) rs × Exclusive rs

  Exclusive-append :
      (rs : List BlacklistRow) (s : BlacklistRow)
      → Exclusive rs
      → All (λ r. Apart r s) rs
      → Exclusive (rs ++ s ∷ [])
  Exclusive-append [] s h a = (tt, tt)
  Exclusive-append (r ∷ rs) s (x, h) (y, a) =
      (All-append (Apart r) rs (s ∷ []) x (y, tt), Exclusive-append rs s h a)

  module _ (now : ℕ) where
    out_of_turn_iff :
        (from to : Option ℕ)
        → (is_out_of_turn now from to ≡ false) ↔ Ordered (from_or_now lower now from) to
    unfolding is_out_of_turn
    out_of_turn_iff from none = (λ _. tt, λ _. refl)
    out_of_turn_iff none (some to) = (λ h. ground arith, λ h. ground arith)
    out_of_turn_iff (some from) (some to) = (λ h. ground arith, λ h. ground arith)

    -- A row with the pattern of `s` leaves room for `s`: it ends by its start or starts after its end.
    abbrev pub Room : BlacklistRow → BlacklistRow → Type 0
    Room s r =
        lower r.regexp ≡ lower s.regexp
        → Over s.valid_from r.valid_to ⊎ StartsAfter r.valid_from s.valid_to

    abbrev starts_by : ℕ → Option ℕ → Bool
    starts_by f none = true
    starts_by f (some to) = leb f to

    test_parts :
        (from to e : Option ℕ) (f : ℕ) (p : Text) (r : BlacklistRow)
        → r.valid_to ≡ e
        → is_in_the_way lower now p from to r ≡ (
            text_eq (lower r.regexp) (lower p)
            && (ends_after (from_or_now lower now from) r.valid_to && starts_by r.valid_from to))
    unfolding is_in_the_way
    test_parts none none e f p r h = ground arith
    test_parts none (some to) e f p r h = ground arith
    test_parts (some from) none e f p r h = ground arith
    test_parts (some from) (some to) e f p r h = ground arith

    room_test :
        (from : ℕ) (to e : Option ℕ) (f : ℕ)
        → ((ends_after from e && starts_by f to) ≡ false) ↔ (Over from e ⊎ StartsAfter f to)
    room_test from none none f = (λ h. cc, λ h. ground arith)
    room_test from none (some e) f = (λ h. inl (ground arith), λ h. ground arith)
    room_test from (some to) none f = (λ h. inr (ground arith), λ h. ground arith)
    room_test from (some to) (some e) f = (λ h. ground arith, λ h. ground arith)

    and_false_iff :
        (x y : Bool) {P Q : Type 0}
        → (x ≡ true) ↔ P
        → (y ≡ false) ↔ Q
        → ((x && y) ≡ false) ↔ (P → Q)
    and_false_iff true y hx hy = (λ h p. hy.0 h, λ f. hy.1 (f (hx.0 refl)))
    and_false_iff false y hx hy = (λ h p. absurd (cc (hx.1 p)), λ f. refl)

    in_the_way_iff :
        (op : CreateDomainNameBlacklistId) (p : Text) (r : BlacklistRow)
        → (is_in_the_way lower now p op.valid_from op.valid_to r ≡ false)
          ↔ Room (new_row lower now op p) r
    in_the_way_iff op p r =
        rw (test_parts op.valid_from op.valid_to r.valid_to r.valid_from p r refl) (
          and_false_iff (text_eq (lower r.regexp) (lower p)) _
            (text_eq_iff (lower r.regexp) (lower p))
            (room_test (from_or_now lower now op.valid_from) op.valid_to r.valid_to r.valid_from))

    over : (from t : ℕ) (e : Option ℕ) → Over from e → from ≤ t → ends_after t e ≡ true → ⊥
    over from t none o h k = absurd o
    over from t (some e) o h k = ground arith

    late : (f t : ℕ) (to : Option ℕ) → StartsAfter f to → f ≤ t → ends_after t to ≡ true → ⊥
    late f t none o h k = absurd o
    late f t (some to) o h k = ground arith

    Room→Apart : (s r : BlacklistRow) → Room s r → Apart r s
    Room→Apart s r room same t hr hs = elim (room same) [
      | inl o ↦ over s.valid_from t r.valid_to o hs.0 hr.1
      | inr o ↦ late r.valid_from t s.valid_to o hr.0 hs.1
    ]

    free_iff :
        (rows : List BlacklistRow) (op : CreateDomainNameBlacklistId) (p : Text)
        → (is_blacklisted lower now rows p op.valid_from op.valid_to ≡ false)
          ↔ All (Room (new_row lower now op p)) rows
    unfolding is_blacklisted
    free_iff rows op p = (
      λ h. All_mono rows (λ r. (in_the_way_iff op p r).0) (any-false→All _ rows h),
      λ h. All→any-false _ rows (All_mono rows (λ r. (in_the_way_iff op p r).1) h),
    )

    -- What `exec` computes, from the results of its tests.
    run :
        (registry : List ObjectRow) (rows : List BlacklistRow) (op : CreateDomainNameBlacklistId)
        (o : ObjectRow)
        → is_out_of_turn now op.valid_from op.valid_to ≡ false
        → find_object op.object_id registry ≡ some o
        → is_blacklisted lower now rows (fqdn_to_regexp o.name) op.valid_from op.valid_to ≡ false
        → create_domain_name_blacklist_id lower now registry rows op
          ≡ ok (rows ++ new_row lower now op (fqdn_to_regexp o.name) ∷ [])
    unfolding create_domain_name_blacklist_id
    run registry rows op o t f b = rw (t, f, b) refl

    tests :
        (registry : List ObjectRow) (rows : List BlacklistRow) (op : CreateDomainNameBlacklistId)
        {after : List BlacklistRow}
        → create_domain_name_blacklist_id lower now registry rows op ≡ ok after
        → (is_out_of_turn now op.valid_from op.valid_to ≡ false)
          × (o : ObjectRow) × (find_object op.object_id registry ≡ some o)
          × (is_blacklisted lower now rows (fqdn_to_regexp o.name) op.valid_from op.valid_to
              ≡ false)
    unfolding create_domain_name_blacklist_id
    tests registry rows op h = elim (Bool-cases (is_out_of_turn now op.valid_from op.valid_to)) [
      | inl t ↦ ground arith
      | inr t ↦ elim (Option-cases (find_object op.object_id registry)) [
        | inl f ↦ ground arith
        | inr (o, f) ↦ (t, o, f, ground arith)
      ]
    ]

    -- An entry of the blacklist is made exactly if its interval is in order, the object is there
    -- and every row of its pattern leaves room; the row is then added at the end.
    pub create_iff :
        (registry : List ObjectRow) (rows : List BlacklistRow) (op : CreateDomainNameBlacklistId)
        (after : List BlacklistRow)
        → (create_domain_name_blacklist_id lower now registry rows op ≡ ok after) ↔ (
            Ordered (from_or_now lower now op.valid_from) op.valid_to
            × (o : ObjectRow) × (find_object op.object_id registry ≡ some o)
            × All (Room (new_row lower now op (fqdn_to_regexp o.name))) rows
            × (after ≡ rows ++ new_row lower now op (fqdn_to_regexp o.name) ∷ []))
    create_iff registry rows op after = (
      λ h.
          let (t, o, f, b) = tests registry rows op h in
          (
            (out_of_turn_iff op.valid_from op.valid_to).0 t,
            o,
            f,
            (free_iff rows op (fqdn_to_regexp o.name)).0 b,
            ground (arith, run registry rows op o t f b),
          ),
      λ (w, o, f, room, e). rw e (
          run registry rows op o ((out_of_turn_iff op.valid_from op.valid_to).1 w) f
            ((free_iff rows op (fqdn_to_regexp o.name)).1 room)),
    )

    -- If the entries of one pattern, up to case, have no moment in common, the same holds after
    -- an operation that succeeds.
    pub create-Exclusive :
        (registry : List ObjectRow) (rows : List BlacklistRow) (op : CreateDomainNameBlacklistId)
        {after : List BlacklistRow}
        → Exclusive rows
        → create_domain_name_blacklist_id lower now registry rows op ≡ ok after
        → Exclusive after
    create-Exclusive registry rows op {after} x h =
        let (_, o, f, room, e) = (create_iff registry rows op after).0 h in
        rw e (
          Exclusive-append rows _ x
            (All_mono rows (λ r. Room→Apart (new_row lower now op (fqdn_to_regexp o.name)) r) room))
