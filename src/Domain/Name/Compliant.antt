-- ===== src/Domain/Name/Compliant.antt =====
-- A host name is read, whether or not it ends in a dot.
use fred_libfred.Boost.{StringAlgorithms}
use fred_libfred.Boost.Parts.{glue, Lacks}
use fred_libfred.Common.{
  ◌≡◌, refl, sym, ap, ◌∙◌, ◌⊎◌, inr, [], ◌∷◌, arith, Text, All, All_mono, c_str, true, ok,
}
use fred_libfred.Domain.Name.{
  dot, rem_trailing_dot, is_rfc1123_compliant_host_name, DomainName, of_string, get_string,
}
use fred_libfred.Domain.Name.Characters.{IsLdh}
use fred_libfred.Domain.Name.Syntax.{IsLabel, is_rfc1123_compliant_host_name_iff, dotted, All-glue}
use fred_libfred.Domain.Name.RoundTrip.{
  IsValid, IsLabel-Lacks, of_string-IsValid, of_string_accepts, get_string-of_string,
}

-- A text whose rest is letters, digits, hyphens and dots has no NUL.
c_str-rem : (s : Text) → All (λ c. IsLdh c ⊎ (c ≡ dot)) (rem_trailing_dot s) → c_str s ≡ s
unfolding rem_trailing_dot
c_str-rem [] h = refl
c_str-rem (c ∷ []) h = ground arith
c_str-rem (c ∷ d ∷ s) (x, h) = ground (arith, c_str-rem (d ∷ s) h)

module _ (b : StringAlgorithms) where
  compliant-c_str : (s : Text) → is_rfc1123_compliant_host_name b s ≡ true → c_str s ≡ s
  compliant-c_str s h =
      let (ls, ne, good, e, short) = (is_rfc1123_compliant_host_name_iff b s).0 h in
      c_str-rem s (
        rw e
          (All-glue _ ls (inr refl) (All_mono ls (λ l (x : IsLabel l). (dotted l x.ldh).0) good)))

  -- The labels of what was read, with dots between them, are the text without its final dot.
  pub compliant-of_string :
      (s : Text)
      → is_rfc1123_compliant_host_name b s ≡ true
      → (d : DomainName) × (of_string b s ≡ ok d)
        × IsValid d
        × (glue d.labels dot ≡ rem_trailing_dot s)
  unfolding get_string
  compliant-of_string s h =
      let e = compliant-c_str s h in
      let d : DomainName = record { labels = b.split (rem_trailing_dot (c_str s)) dot } in
      let read : of_string b s ≡ ok d = of_string_accepts b s (rw e h) in
      (
        d,
        read,
        of_string-IsValid b s read,
        sym (b.join-glue d.labels dot)
            ∙ ((get_string-of_string b s read).0 ∙ ap rem_trailing_dot e),
      )

  pub valid_Lacks : (d : DomainName) → IsValid d → All (Lacks dot) d.labels
  valid_Lacks d v = All_mono d.labels IsLabel-Lacks v.labels_valid
