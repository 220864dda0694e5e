-- ===== src/Domain/Name/RoundTrip.antt =====
-- Names read from text and written back.
use fred_libfred.Boost.{StringAlgorithms, split-cut}
use fred_libfred.Boost.Parts.{Lacks, glue, cut-glue}
use fred_libfred.Common.{
  ◌≤◌, ◌≡◌, refl, ap, ◌∙◌, ◌≢◌, ◌⊎◌, inr, List, [], ◌∷◌, ◌++◌, arith, Text, All, All_mono, length,
  c_str, true, ok,
}
use fred_libfred.Domain.Name.{
  dot, rem_trailing_dot, is_rfc1123_compliant_host_name, DomainName, of_string, get_string,
}
use fred_libfred.Domain.Name.Characters.{IsLdh}
use fred_libfred.Domain.Name.Syntax.{IsLabel, is_rfc1123_compliant_host_name_iff, dotted, All-glue}

-- The labels are those of a host name.
pub record IsValid (d : DomainName) : Type 0 where
  pub not_empty : d.labels ≢ []
  pub labels_valid : All IsLabel d.labels
  pub fits : length (glue d.labels dot) ≤ 253

rem_trailing_dot-append :
    (p g : Text) → g ≢ [] → rem_trailing_dot (p ++ g) ≡ p ++ rem_trailing_dot g
unfolding rem_trailing_dot
rem_trailing_dot-append [] g h = refl
rem_trailing_dot-append (c ∷ []) [] h = absurd (h refl)
rem_trailing_dot-append (c ∷ []) (d ∷ g) h = refl
rem_trailing_dot-append (c ∷ e ∷ p) g h = ap (◌∷◌ c) (rem_trailing_dot-append (e ∷ p) g h)

rem_trailing_dot_undotted : (l : Text) → Lacks dot l → rem_trailing_dot l ≡ l
unfolding rem_trailing_dot
rem_trailing_dot_undotted [] h = refl
rem_trailing_dot_undotted (c ∷ []) h = ground arith
rem_trailing_dot_undotted (c ∷ d ∷ l) (_, h) = ap (◌∷◌ c) (rem_trailing_dot_undotted (d ∷ l) h)

glue_not_nil : (l : Text) (ls : List Text) → IsLabel l → glue (l ∷ ls) dot ≢ []
glue_not_nil [] ls x = absurd (omega (arith, x.not_empty))
glue_not_nil (c ∷ l) [] x = λ e. cc
glue_not_nil (c ∷ l) (m ∷ ls) x = λ e. cc

pub IsLabel-Lacks : (l : Text) → IsLabel l → Lacks dot l
IsLabel-Lacks l x = (dotted l x.ldh).1

-- Glued labels do not end in a dot.
rem_trailing_dot-glue :
    (ls : List Text) → All IsLabel ls → rem_trailing_dot (glue ls dot) ≡ glue ls dot
rem_trailing_dot-glue [] h = unfold rem_trailing_dot in refl
rem_trailing_dot-glue (l ∷ []) (x, _) = rem_trailing_dot_undotted l (IsLabel-Lacks l x)
rem_trailing_dot-glue (l ∷ m ∷ ls) (x, (y, h)) =
    rem_trailing_dot-append l (dot ∷ glue (m ∷ ls) dot) (λ e. cc)
    ∙ ap (◌++◌ l) (
        rem_trailing_dot-append (dot ∷ []) (glue (m ∷ ls) dot) (glue_not_nil m ls y)
        ∙ ap (◌∷◌ dot) (rem_trailing_dot-glue (m ∷ ls) (y, h)))

pub c_str_all : (s : Text) → All (λ c. IsLdh c ⊎ (c ≡ dot)) s → c_str s ≡ s
c_str_all [] h = refl
c_str_all (c ∷ s) (x, h) = ground (arith, c_str_all s h)

c_str-glue : (ls : List Text) → All IsLabel ls → c_str (glue ls dot) ≡ glue ls dot
c_str-glue ls h =
    c_str_all _ (All-glue _ ls (inr refl) (All_mono ls (λ l (x : IsLabel l). (dotted l x.ldh).0) h))

module _ (b : StringAlgorithms) where
  of_string_accepted :
      (s : Text) {d : DomainName}
      → of_string b s ≡ ok d
      → (is_rfc1123_compliant_host_name b (c_str s) ≡ true)
        × (d ≡ record { labels = b.split (rem_trailing_dot (c_str s)) dot })
  unfolding of_string
  of_string_accepted s h = ground arith

  pub of_string_accepts :
      (s : Text)
      → is_rfc1123_compliant_host_name b (c_str s) ≡ true
      → of_string b s ≡ ok (record { labels = b.split (rem_trailing_dot (c_str s)) dot })
  unfolding of_string
  of_string_accepts s h = ground arith

  -- Every name that the constructor makes is valid.
  pub of_string-IsValid : (s : Text) {d : DomainName} → of_string b s ≡ ok d → IsValid d
  of_string-IsValid s {d} h =
      let (compliant, made) = of_string_accepted s h in
      let t = rem_trailing_dot (c_str s) in
      let (ls, ne, good, e, short) = (is_rfc1123_compliant_host_name_iff b (c_str s)).0 compliant in
      let split_e : b.split t dot ≡ ls =
        split-cut b t dot ∙ rw e (cut-glue ls dot ne (All_mono ls IsLabel-Lacks good)) in
      rw (made, split_e) (record { not_empty = ne; labels_valid = good; fits = rw (← e) short })

  -- Glued labels are read back.
  pub of_string-glue : (d : DomainName) → IsValid d → of_string b (glue d.labels dot) ≡ ok d
  of_string-glue d v =
      let g = glue d.labels dot in
      let e : rem_trailing_dot (c_str g) ≡ g =
        rw (c_str-glue d.labels v.labels_valid) (rem_trailing_dot-glue d.labels v.labels_valid) in
      let compliant =
        (is_rfc1123_compliant_host_name_iff b (c_str g)).1
          (d.labels, v.not_empty, v.labels_valid, e, rw e v.fits) in
      let split_e : b.split (rem_trailing_dot (c_str g)) dot ≡ d.labels = rw e (
        split-cut b g dot
        ∙ cut-glue d.labels dot v.not_empty (All_mono d.labels IsLabel-Lacks v.labels_valid)) in
      of_string_accepts g compliant ∙ ap (λ ls. ok (record { labels = ls })) split_e

  -- A name that was read prints as the text (up to its first NUL) without its final dot, and
  -- that print is read back as the same name.
  pub get_string-of_string :
      (s : Text) {d : DomainName}
      → of_string b s ≡ ok d
      → (get_string b d ≡ rem_trailing_dot (c_str s)) × (of_string b (get_string b d) ≡ ok d)
  unfolding get_string
  get_string-of_string s {d} h =
      let (_, made) = of_string_accepted s h in
      (
        rw made (b.join-split _ dot),
        rw (b.join-glue d.labels dot) (of_string-glue d (of_string-IsValid s h)),
      )
