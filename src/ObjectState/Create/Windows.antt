-- ===== src/ObjectState/Create/Windows.antt =====
-- Which pairs of intervals the query of the creation takes for conflicting.
use fred_libfred.Common.{
  ℕ, ◌≤◌, ◌<◌, ◌≡◌, ◌↔◌, ◌⊎◌, inl, inr, arith, ltb, if◌then◌else◌, true, false, ◌&&◌, Option, none,
  some, Bool-cases,
}
use fred_libfred.ObjectState.Create.{before, conflicts}

-- A moment lies in the half-open interval from `a` to `b`; `none` is no end.
abbrev pub IsBefore : ℕ → Option ℕ → Type 0
IsBefore x none = Unit
IsBefore x (some b) = x < b

-- Some moment lies in both intervals.
abbrev pub Overlap : ℕ → Option ℕ → ℕ → Option ℕ → Type 0
Overlap a b c d = (x : ℕ) × (a ≤ x) × IsBefore x b × (c ≤ x) × IsBefore x d

-- The first interval begins after the second and ends before it.
abbrev pub EndsBefore : Option ℕ → Option ℕ → Type 0
EndsBefore none d = ⊥
EndsBefore (some b) none = Unit
EndsBefore (some b) (some d) = b < d

abbrev pub StrictlyInside : ℕ → Option ℕ → ℕ → Option ℕ → Type 0
StrictlyInside a b c d = (c < a) × EndsBefore b d

abbrev pub later : ℕ → ℕ → ℕ
later a c = if ltb a c then c else a

conflict-Overlap :
    (a : ℕ) (b : Option ℕ) (c : ℕ) (d : Option ℕ)
    → IsBefore c d
    → before b a ≡ false
    → conflicts a b c d ≡ true
    → Overlap a b c d × ¬ StrictlyInside a b c d
unfolding conflicts
conflict-Overlap a none c none h o e = ((later a c, ground arith, tt, ground arith, tt), λ s. s.1)
conflict-Overlap a none c (some d) h o e =
    ((later a c, ground arith, tt, ground arith, ground arith), λ s. s.1)
conflict-Overlap a (some b) c none h o e =
    ((later a c, ground arith, ground arith, ground arith, tt), λ s. ground arith)
conflict-Overlap a (some b) c (some d) h o e =
    ((later a c, ground arith, ground arith, ground arith, ground arith), λ s. ground arith)

Overlap-conflict :
    (a : ℕ) (b : Option ℕ) (c : ℕ) (d : Option ℕ)
    → Overlap a b c d
    → ¬ StrictlyInside a b c d
    → conflicts a b c d ≡ true
unfolding conflicts
Overlap-conflict a none c none (x, p, _, r, _) n = ground arith
Overlap-conflict a none c (some d) (x, p, _, r, s) n = ground arith
Overlap-conflict a (some b) c none (x, p, q, r, _) n = ground (arith, λ (l : c < a). n (l, tt))
Overlap-conflict a (some b) c (some d) (x, p, q, r, s) n =
    ground (arith, λ (l : c < a) (m : b < d). n (l, m))

reversed-conflict :
    (a : ℕ) (b : Option ℕ) (c : ℕ) (d : Option ℕ) → before b a ≡ true → conflicts a b c d ≡ true
unfolding conflicts
reversed-conflict a b c d h = rw h

pub StrictlyInside-or_not :
    (a : ℕ) (b : Option ℕ) (c : ℕ) (d : Option ℕ)
    → StrictlyInside a b c d ⊎ ¬ StrictlyInside a b c d
StrictlyInside-or_not a none c d = inr (λ s. s.1)
StrictlyInside-or_not a (some b) c none = elim (Bool-cases (ltb c a)) [
  | inl e ↦ inl (ground arith, tt)
  | inr e ↦ inr (λ s. ground arith)
]
StrictlyInside-or_not a (some b) c (some d) = elim (Bool-cases (ltb c a && ltb b d)) [
  | inl e ↦ inl (ground arith, ground arith)
  | inr e ↦ inr (λ s. ground arith)
]

-- For a new interval that is not empty, the query takes a stored interval for conflicting
-- exactly if it ends before it begins, or the two have a moment in common and the stored one
-- does not lie strictly inside the new one.
pub conflicts_iff :
    (a : ℕ) (b : Option ℕ) (c : ℕ) (d : Option ℕ)
    → IsBefore c d
    → (conflicts a b c d ≡ true)
      ↔ ((before b a ≡ true) ⊎ (Overlap a b c d × ¬ StrictlyInside a b c d))
conflicts_iff a b c d h = (to, from)
  where
    to :
        conflicts a b c d ≡ true
        → (before b a ≡ true) ⊎ (Overlap a b c d × ¬ StrictlyInside a b c d)
    to e = elim (Bool-cases (before b a)) [
      | inl r ↦ inl r
      | inr r ↦ inr (conflict-Overlap a b c d h r e)
    ]

    from :
        (before b a ≡ true) ⊎ (Overlap a b c d × ¬ StrictlyInside a b c d)
        → conflicts a b c d ≡ true
    from (inl r) = reversed-conflict a b c d r
    from (inr (o, n)) = Overlap-conflict a b c d o n
