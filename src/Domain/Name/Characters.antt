-- ===== src/Domain/Name/Characters.antt =====
-- The characters of host names.
use fred_libfred.Common.{
  ℕ, zero, suc, ◌≤◌, ◌<◌, ◌≡◌, refl, ◌⊎◌, inl, inr, List, [], ◌∷◌, arith, Text, all, All, all→All,
  leb, ◌==◌, ==_iff, is_member, Bool, true, not, ◌&&◌, ◌||◌, Bool-cases,
}
use fred_libfred.Domain.Name.{dot, letter_digit_hyphen_dot, is_letter_digit_hyphen_dot}

-- A letter, a digit or a hyphen.
abbrev pub IsLdh : ℕ → Type 0
IsLdh c =
    ((b'A' ≤ c) × (c ≤ b'Z')) ⊎ ((b'a' ≤ c) × (c ≤ b'z')) ⊎ ((b'0' ≤ c) × (c ≤ b'9')) ⊎ (c ≡ b'-')

member→P : (P : ℕ → Type 0) (s : Text) (c : ℕ) → All P s → is_member s c ≡ true → P c
member→P P [] c h m = absurd (ground arith)
member→P P (a ∷ s) c (pa, h) m = elim (Bool-cases (a == c)) [
  | inl e ↦ rw (← (==_iff a c).0 e) pa
  | inr e ↦ member→P P s c h (ground arith)
]

letters_All : All (λ c. IsLdh c ⊎ (c ≡ dot)) letter_digit_hyphen_dot
letters_All = omega arith

is_ldh_dot : ℕ → Bool
is_ldh_dot c =
    (leb b'A' c && leb c b'Z')
    || (leb b'a' c && leb c b'z')
    || (leb b'0' c && leb c b'9')
    || c == b'-'
    || c == dot

-- The numbers below a bound, the largest first, and a test of each of them.
abbrev downto : ℕ → List ℕ
downto zero = []
downto (suc bound) = bound ∷ downto bound

tested :
    (test : ℕ → Bool) (c bound : ℕ)
    → c < bound
    → All (λ k. test k ≡ true) (downto bound)
    → test c ≡ true
tested test c zero lt ok_all = absurd (omega arith)
tested test c (suc bound) lt (here, lower) = elim (Bool-cases (c == bound)) [
  | inl same ↦ rw ((==_iff c bound).0 same) here
  | inr other ↦ tested test c bound (ground arith) lower
]

ldh_dot-table : all (λ c. not (is_ldh_dot c) || is_letter_digit_hyphen_dot c) (downto 123) ≡ true
unfolding is_ldh_dot is_letter_digit_hyphen_dot
ldh_dot-table = refl

IsLdh→is_ldh_dot : (c : ℕ) → IsLdh c ⊎ (c ≡ dot) → (is_ldh_dot c ≡ true) × (c < 123)
unfolding is_ldh_dot
IsLdh→is_ldh_dot c h = ground arith

or_elim : (p q : Bool) → (not p || q) ≡ true → p ≡ true → q ≡ true
or_elim p q h e = ground arith

pub ldh_dot-member : (c : ℕ) → IsLdh c ⊎ (c ≡ dot) → is_letter_digit_hyphen_dot c ≡ true
ldh_dot-member c h =
    let (e, lt) = IsLdh→is_ldh_dot c h in
    or_elim (is_ldh_dot c) _
      (tested (λ k. not (is_ldh_dot k) || is_letter_digit_hyphen_dot k) c 123 lt
        (all→All (λ k. not (is_ldh_dot k) || is_letter_digit_hyphen_dot k) (downto 123)
          ldh_dot-table))
      e

pub member-IsLdh : (c : ℕ) → is_letter_digit_hyphen_dot c ≡ true → IsLdh c ⊎ (c ≡ dot)
unfolding is_letter_digit_hyphen_dot
member-IsLdh c m = member→P (λ x. IsLdh x ⊎ (x ≡ dot)) letter_digit_hyphen_dot c letters_All m
