-- ===== src/Domain/Name/Syntax.antt =====
-- What `is_rfc1123_compliant_host_name` accepts, against a description by labels.
use fred_libfred.Boost.{StringAlgorithms, split-cut}
use fred_libfred.Boost.Parts.{Lacks, glue, cut, cut-Lacks, cut-glue, glue-cut, cut-ne-nil}
use fred_libfred.Common.{
  ℕ, ◌≤◌, ◌≡◌, refl, sym, ◌∙◌, ◌≢◌, ◌↔◌, ◌⊎◌, inl, inr, List, [], ◌∷◌, ◌++◌, arith, Text, all, any,
  All, All_mono, All-append, all→All, All→all, any-false→All, All→any-false, length, length-append,
  true, false, not, Bool-cases,
}
use fred_libfred.Domain.Name.{
  dot, hyphen, rem_trailing_dot, is_letter_digit_hyphen_dot, is_bad_label,
  is_rfc1123_compliant_host_name,
}
use fred_libfred.Domain.Name.Characters.{IsLdh, ldh_dot-member, member-IsLdh}

pub record IsLabel (label : Text) : Type 0 where
  pub not_empty : 1 ≤ length label
  pub short : length label ≤ 63
  pub ldh : All IsLdh label
  pub first : (rest : Text) → label ≢ b'-' ∷ rest
  pub last : (init : Text) → label ≢ init ++ b'-' ∷ []

-- A host name is some labels, one or more, with a dot between them, and at most 253 bytes.
abbrev pub IsHostName : Text → Type 0
IsHostName s = (ls : List Text) × (ls ≢ []) × All IsLabel ls × (s ≡ glue ls dot) × (length s ≤ 253)

-- Glued labels hold what the labels hold, and dots.
pub All-glue : (P : ℕ → Type 0) (ls : List Text) → P dot → All (All P) ls → All P (glue ls dot)
All-glue P [] d h = tt
All-glue P (l ∷ []) d (h, _) = h
All-glue P (l ∷ m ∷ ls) d (h, hs) = All-append P l _ h (d, All-glue P (m ∷ ls) d hs)

glue-All : (P : ℕ → Type 0) (ls : List Text) → All P (glue ls dot) → All (All P) ls
glue-All P [] h = tt
glue-All P (l ∷ []) h = (h, tt)
glue-All P (l ∷ m ∷ ls) h = let (x, y) = split_at l h in (x, glue-All P (m ∷ ls) y)
  where
    split_at :
        (l : Text) → All P (l ++ dot ∷ glue (m ∷ ls) dot) → All P l × All P (glue (m ∷ ls) dot)
    split_at [] h = (tt, h.1)
    split_at (c ∷ l) (pc, h) = let (x, y) = split_at l h in ((pc, x), y)

-- A part that holds no dot, of characters that pass, holds letters, digits and hyphens only.
undotted : (l : Text) → Lacks dot l → All (λ c. IsLdh c ⊎ (c ≡ dot)) l → All IsLdh l
undotted [] _ _ = tt
undotted (c ∷ l) (n, h) (inl x, a) = (x, undotted l h a)
undotted (c ∷ l) (n, h) (inr x, a) = absurd (n x)

pub dotted : (l : Text) → All IsLdh l → All (λ c. IsLdh c ⊎ (c ≡ dot)) l × Lacks dot l
dotted [] h = (tt, tt)
dotted (c ∷ l) (x, h) = let (a, n) = dotted l h in ((inl x, a), (λ e. omega arith, n))

module _ (b : StringAlgorithms) where
  good_label :
      (l : Text)
      → not (is_bad_label b l) ≡ true
      → (1 ≤ length l)
        × (length l ≤ 63)
        × (b.starts_with l hyphen ≡ false)
        × (b.ends_with l hyphen ≡ false)
  unfolding is_bad_label
  good_label l h = ground arith

  label_good :
      (l : Text)
      → 1 ≤ length l
      → length l ≤ 63
      → b.starts_with l hyphen ≡ false
      → b.ends_with l hyphen ≡ false
      → not (is_bad_label b l) ≡ true
  unfolding is_bad_label
  label_good l h₁ h₂ h₃ h₄ = ground arith

  to_IsLabel : (l : Text) → not (is_bad_label b l) ≡ true → All IsLdh l → IsLabel l
  to_IsLabel l h a =
      let (one, short, s, e) = good_label l h in
      record {
        not_empty = one;
        short = short;
        ldh = a;
        first = λ rest q. cc ((b.starts_with_iff l hyphen).1 (rest, q), s);
        last = λ init q. cc ((b.ends_with_iff l hyphen).1 (init, q), e);
      }

  of_IsLabel : (l : Text) → IsLabel l → not (is_bad_label b l) ≡ true
  of_IsLabel l h = label_good l h.not_empty h.short starts ends
    where
      starts : b.starts_with l hyphen ≡ false
      starts = elim (Bool-cases (b.starts_with l hyphen)) [
        | inl e ↦ let (rest, q) = (b.starts_with_iff l hyphen).0 e in absurd (h.first rest q)
        | inr e ↦ e
      ]

      ends : b.ends_with l hyphen ≡ false
      ends = elim (Bool-cases (b.ends_with l hyphen)) [
        | inl e ↦ let (init, q) = (b.ends_with_iff l hyphen).0 e in absurd (h.last init q)
        | inr e ↦ e
      ]

  -- The tests that a name has passed.
  passed :
      (s : Text)
      → is_rfc1123_compliant_host_name b s ≡ true
      → let t = rem_trailing_dot s in
        (1 ≤ length t)
        × (length t ≤ 253)
        × (any (λ c. not (is_letter_digit_hyphen_dot c)) t ≡ false)
        × (all (λ l. not (is_bad_label b l)) (b.split t dot) ≡ true)
  unfolding is_rfc1123_compliant_host_name
  passed s h = ground arith

  passes :
      (s : Text)
      → let t = rem_trailing_dot s in
        1 ≤ length t
        → length t ≤ 253
        → any (λ c. not (is_letter_digit_hyphen_dot c)) t ≡ false
        → all (λ l. not (is_bad_label b l)) (b.split t dot) ≡ true
        → is_rfc1123_compliant_host_name b s ≡ true
  unfolding is_rfc1123_compliant_host_name
  passes s h₁ h₂ h₃ h₄ = ground arith

  labels-IsLabel :
      (ls : List Text)
      → All (λ l. not (is_bad_label b l) ≡ true) ls
      → All (Lacks dot) ls
      → All (All (λ c. IsLdh c ⊎ (c ≡ dot))) ls
      → All IsLabel ls
  labels-IsLabel [] _ _ _ = tt
  labels-IsLabel (l ∷ ls) (h, hs) (n, ns) (a, as') =
      (to_IsLabel l h (undotted l n a), labels-IsLabel ls hs ns as')

  chars_pass : (c : ℕ) → not (is_letter_digit_hyphen_dot c) ≡ false → IsLdh c ⊎ (c ≡ dot)
  chars_pass c h = member-IsLdh c (ground arith)

  pass_chars : (c : ℕ) → IsLdh c ⊎ (c ≡ dot) → not (is_letter_digit_hyphen_dot c) ≡ false
  pass_chars c h = rw (ldh_dot-member c h)

  to_IsHostName :
      (s : Text) → is_rfc1123_compliant_host_name b s ≡ true → IsHostName (rem_trailing_dot s)
  to_IsHostName s h =
      let t = rem_trailing_dot s in
      let (one, short, chars, labels) = passed s h in
      let good = all→All _ (cut t dot) (rw (split-cut b t dot) at labels) in
      let all_chars = All_mono t chars_pass (any-false→All _ t chars) in
      let parts = glue-All _ (cut t dot) (rw (glue-cut t dot) all_chars) in
      (
        cut t dot,
        cut-ne-nil t dot,
        labels-IsLabel (cut t dot) good (cut-Lacks t dot) parts,
        sym (glue-cut t dot),
        short,
      )

  nonempty-glue : (ls : List Text) → ls ≢ [] → All IsLabel ls → 1 ≤ length (glue ls dot)
  nonempty-glue [] h _ = absurd (h refl)
  nonempty-glue (l ∷ []) h (x, _) = x.not_empty
  nonempty-glue (l ∷ m ∷ ls) h (x, _) =
      omega (arith, x.not_empty, length-append l (dot ∷ glue (m ∷ ls) dot))

  of_IsHostName :
      (s : Text) → IsHostName (rem_trailing_dot s) → is_rfc1123_compliant_host_name b s ≡ true
  of_IsHostName s (ls, ne, good, e, short) =
      let t = rem_trailing_dot s in
      let lacks = All_mono ls (λ l (x : IsLabel l). (dotted l x.ldh).1) good in
      let chars =
        All-glue (λ c. IsLdh c ⊎ (c ≡ dot)) ls (inr refl)
          (All_mono ls (λ l (x : IsLabel l). (dotted l x.ldh).0) good) in
      let split_e : b.split t dot ≡ ls = split-cut b t dot ∙ rw e (cut-glue ls dot ne lacks) in
      passes s (rw e (nonempty-glue ls ne good)) short
        (All→any-false _ t (rw e (All_mono (glue ls dot) pass_chars chars)))
        (rw split_e (All→all _ ls (All_mono ls of_IsLabel good)))

  -- A text is accepted exactly if, without its final dot, it is one or more labels joined by
  -- dots, at most 253 bytes in all, each label of 1 to 63 letters, digits and hyphens that
  -- neither begins nor ends with a hyphen.
  pub is_rfc1123_compliant_host_name_iff :
      (s : Text) → (is_rfc1123_compliant_host_name b s ≡ true) ↔ IsHostName (rem_trailing_dot s)
  is_rfc1123_compliant_host_name_iff s = (to_IsHostName s, of_IsHostName s)
