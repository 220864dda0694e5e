-- ===== src/Domain/Blacklist/Patterns.antt =====
-- What the pattern of a name matches, by the documented meaning of the patterns of PostgreSQL.
use fred_libfred.Common.{
  ℕ, ◌≡◌, refl, ap, ◌∙◌, ◌⊎◌, inl, inr, [], ◌∷◌, ◌++◌, append_assoc, Text, codes, ◌==◌, ==_iff,
  Bool, true, false, ◌&&◌, Bool-cases, All, All-append,
}
use fred_libfred.Domain.Name.Characters.{IsLdh}
use fred_libfred.Domain.Blacklist.{quote_char, quote, fqdn_to_regexp}

-- The characters of a pattern that has no operator but the end, the escape and the wildcard.
abbrev pub IsSimple : ℕ → Type 0
IsSimple c = IsLdh c ⊎ (c ≡ b'\\') ⊎ (c ≡ b'.') ⊎ (c ≡ b'$')

-- What such patterns mean for an operator, the text first: `rest` is whether a pattern matches from a
-- place of the text on, and `same` compares two characters, with the case or without it.
pub record IsPatternMatch (matches : Text → Text → Bool) : Type 0 where
  pub same : ℕ → ℕ → Bool
  pub rest : Text → Text → Bool
  pub from_start : (t p : Text) → All IsSimple p → matches t (b'^' ∷ p) ≡ rest t p
  pub at_end : rest [] (b'$' ∷ []) ≡ true
  pub before_end : (c : ℕ) (t : Text) → rest (c ∷ t) (b'$' ∷ []) ≡ false
  pub plain :
      (c d : ℕ) (t p : Text)
      → IsLdh d
      → All IsSimple p
      → rest (c ∷ t) (d ∷ p) ≡ (same c d && rest t p)
  pub plain_at_end : (d : ℕ) (p : Text) → IsLdh d → All IsSimple p → rest [] (d ∷ p) ≡ false
  pub escaped :
      (c : ℕ) (t p : Text)
      → All IsSimple p
      → rest (c ∷ t) (b'\\' ∷ b'.' ∷ p) ≡ (same c b'.' && rest t p)
  pub escaped_at_end : (p : Text) → All IsSimple p → rest [] (b'\\' ∷ b'.' ∷ p) ≡ false

-- Two texts are the same, character for character.
abbrev pub same_text : (ℕ → ℕ → Bool) → Text → Text → Bool
same_text same [] [] = true
same_text same [] (d ∷ s) = false
same_text same (c ∷ t) [] = false
same_text same (c ∷ t) (d ∷ s) = same c d && same_text same t s

abbrev pub IsNameChar : ℕ → Type 0
IsNameChar c = IsLdh c ⊎ (c ≡ b'.')

char-IsSimple : (c : ℕ) → IsNameChar c → All IsSimple (quote_char c)
char-IsSimple c (inl h) = elim (Bool-cases (c == b'.')) [
  | inl e ↦ rw e (inr (inl refl), (inl h, tt))
  | inr e ↦ rw e (inl h, tt)
]
char-IsSimple c (inr h) = rw h (inr (inl refl), (inr (inr (inl refl)), tt))

quote-IsSimple : (s : Text) → All IsNameChar s → All IsSimple (quote s ++ codes "$")
unfolding quote
quote-IsSimple [] h = (inr (inr (inr refl)), tt)
quote-IsSimple (c ∷ s) (x, h) = rw (append_assoc (quote_char c) (quote s) (codes "$")) (
    All-append IsSimple (quote_char c) (quote s ++ codes "$") (char-IsSimple c x)
      (quote-IsSimple s h))

undotted : (c : ℕ) → IsNameChar c → (c == b'.') ≡ false → IsLdh c
undotted c (inl h) e = h
undotted c (inr h) e = cc ((==_iff c b'.').1 h, e)

module _ (matches : Text → Text → Bool) (laws : IsPatternMatch matches) where
  open laws use {same, rest}

  -- One character of the name, and the end of the text before it.
  char_rest :
      (c d : ℕ) (t p : Text)
      → IsNameChar c
      → All IsSimple p
      → rest (d ∷ t) (quote_char c ++ p) ≡ (same d c && rest t p)
  char_rest c d t p x h = elim (Bool-cases (c == b'.')) [
    | inl e ↦ let dotted = (==_iff c b'.').0 e in rw (e, dotted) (laws.escaped d t p h)
    | inr e ↦ rw e (laws.plain d c t p (undotted c x e) h)
  ]

  char_at_end :
      (c : ℕ) (p : Text) → IsNameChar c → All IsSimple p → rest [] (quote_char c ++ p) ≡ false
  char_at_end c p x h = elim (Bool-cases (c == b'.')) [
    | inl e ↦ let dotted = (==_iff c b'.').0 e in rw (e, dotted) (laws.escaped_at_end p h)
    | inr e ↦ rw e (laws.plain_at_end c p (undotted c x e) h)
  ]

  quoted_rest : (s t : Text) → All IsNameChar s → rest t (quote s ++ codes "$") ≡ same_text same t s
  unfolding quote
  quoted_rest [] [] h = laws.at_end
  quoted_rest [] (d ∷ t) h = laws.before_end d t
  quoted_rest (c ∷ s) [] (x, h) =
      rw (append_assoc (quote_char c) (quote s) (codes "$"))
        (char_at_end c (quote s ++ codes "$") x (quote-IsSimple s h))
  quoted_rest (c ∷ s) (d ∷ t) (x, h) = rw (append_assoc (quote_char c) (quote s) (codes "$")) (
      char_rest c d t (quote s ++ codes "$") x (quote-IsSimple s h)
      ∙ ap (λ b. same d c && b) (quoted_rest s t h))

  -- For an operator that reads patterns without other operators than the end and the escape as
  -- PostgreSQL documents it, and a name of letters, digits, hyphens and dots, the pattern of the
  -- name matches exactly the texts that are the same as the name character for character, as the
  -- operator compares characters (with the case or without it).
  pub fqdn_to_regexp-matches :
      (s t : Text) → All IsNameChar s → matches t (fqdn_to_regexp s) ≡ same_text laws.same t s
  unfolding fqdn_to_regexp
  fqdn_to_regexp-matches s t h =
      laws.from_start t (quote s ++ codes "$") (quote-IsSimple s h) ∙ quoted_rest s t h
