-- ===== src/Domain/Name/Subdomains.antt =====
-- `get_subdomains`, and how many labels there can be.
use fred_libfred.Boost.{StringAlgorithms}
use fred_libfred.Boost.Parts.{glue}
use fred_libfred.Common.{
  pos, negsuc, ℕ, zero, suc, ◌-◌, ◌*◌, ◌≤◌, ◌<◌, ◌≡◌, refl, ap, ◌∙◌, ◌≢◌, List, [], ◌∷◌, arith,
  Text, All, All-take, length, length-append, take, ok, err,
}
use fred_libfred.Domain.Name.{
  dot, DomainName, invalid_fqdn, invalid_label_count, of_string, is_rfc1123_compliant_host_name,
  rem_trailing_dot, get_string, get_subdomains,
}
use fred_libfred.Domain.Name.Syntax.{IsLabel}
use fred_libfred.Domain.Name.RoundTrip.{IsValid, of_string-IsValid, of_string-glue}

length-glue-take : (k : ℕ) (ls : List Text) → length (glue (take k ls) dot) ≤ length (glue ls dot)
length-glue-take zero ls = omega arith
length-glue-take (suc k) [] = omega arith
length-glue-take (suc zero) (l ∷ []) = omega arith
length-glue-take (suc (suc k)) (l ∷ []) = omega arith
length-glue-take (suc zero) (l ∷ m ∷ ls) = omega (arith, length-append l (dot ∷ glue (m ∷ ls) dot))
length-glue-take (suc (suc k)) (l ∷ m ∷ ls) = omega (
  arith,
  length-append l (dot ∷ glue (m ∷ ls) dot),
  length-append l (dot ∷ glue (m ∷ take k ls) dot),
  length-glue-take (suc k) (m ∷ ls),
)

labels_spread : (ls : List Text) → All IsLabel ls → 2 * length ls ≤ suc (length (glue ls dot))
labels_spread [] h = omega arith
labels_spread (l ∷ []) (x, h) = omega (arith, x.not_empty)
labels_spread (l ∷ m ∷ ls) (x, h) =
    omega (arith, x.not_empty, labels_spread (m ∷ ls) h, length-append l (dot ∷ glue (m ∷ ls) dot))

take_not_nil : (k : ℕ) (ls : List Text) → 0 < k → ls ≢ [] → take k ls ≢ []
take_not_nil zero ls h n = absurd (omega arith)
take_not_nil (suc k) [] h n = absurd (n refl)
take_not_nil (suc k) (l ∷ ls) h n = λ e. cc

take-IsValid :
    (k : ℕ) (d : DomainName) → 0 < k → IsValid d → IsValid (record { labels = take k d.labels })
take-IsValid k d h v = record {
  not_empty = take_not_nil k d.labels h v.not_empty;
  labels_valid = All-take IsLabel k d.labels v.labels_valid;
  fits = omega (arith, length-glue-take k d.labels, v.fits);
}

module _ (b : StringAlgorithms) where
  of_string-nil : of_string b [] ≡ err invalid_fqdn
  unfolding of_string is_rfc1123_compliant_host_name rem_trailing_dot
  of_string-nil = refl

  lower :
      (d : DomainName) (n : ℕ)
      → n ≤ length d.labels
      → get_subdomains b d (pos n) ≡ of_string b (b.join (take (length d.labels - n) d.labels) dot)
  unfolding get_subdomains
  lower d n h = ground arith

  too_many :
      (d : DomainName) (n : ℕ)
      → length d.labels < n
      → get_subdomains b d (pos n) ≡ err invalid_label_count
  unfolding get_subdomains
  too_many d n h = ground arith

  negative : (d : DomainName) (n : ℕ) → get_subdomains b d (negsuc n) ≡ err invalid_label_count
  unfolding get_subdomains
  negative d n = refl

  joined :
      (d : DomainName) (k : ℕ)
      → 0 < k
      → IsValid d
      → of_string b (b.join (take k d.labels) dot) ≡ ok (record { labels = take k d.labels })
  joined d k h v =
      rw (b.join-glue (take k d.labels) dot) (of_string-glue b _ (take-IsValid k d h v))

  nothing_left : of_string b (b.join [] dot) ≡ err invalid_fqdn
  nothing_left = rw (b.join-glue [] dot) of_string-nil

  some_label : (ls : List Text) → ls ≢ [] → 1 ≤ length ls
  some_label [] h = absurd (h refl)
  some_label (l ∷ ls) h = omega arith

  label_sizes : (ls : List Text) → All IsLabel ls → All (λ l. (1 ≤ length l) × (length l ≤ 63)) ls
  label_sizes [] h = tt
  label_sizes (l ∷ ls) (x, h) = ((x.not_empty, x.short), label_sizes ls h)

  -- A name that the constructor reads from a text has 1 to 127 labels of 1 to 63 bytes each, and
  -- prints as at most 253 bytes.
  pub labels_bound :
      (s : Text) {d : DomainName}
      → of_string b s ≡ ok d
      → (1 ≤ length d.labels)
        × (length d.labels ≤ 127)
        × All (λ l. (1 ≤ length l) × (length l ≤ 63)) d.labels
        × (length (get_string b d) ≤ 253)
  unfolding get_string
  labels_bound s {d} h =
      let v = of_string-IsValid b s h in
      (
        some_label d.labels v.not_empty,
        omega (arith, labels_spread d.labels v.labels_valid, v.fits),
        label_sizes d.labels v.labels_valid,
        rw (b.join-glue d.labels dot) v.fits,
      )

  -- For a valid name, skipping fewer labels than there are keeps the lower ones in order;
  -- skipping all of them is refused as an invalid name; any other count is refused as such.
  pub get_subdomains_cases :
      (d : DomainName) (n : ℕ)
      → IsValid d
      → (n < length d.labels
          → get_subdomains b d (pos n)
            ≡ ok (record { labels = take (length d.labels - n) d.labels }))
        × (n ≡ length d.labels → get_subdomains b d (pos n) ≡ err invalid_fqdn)
        × (length d.labels < n → get_subdomains b d (pos n) ≡ err invalid_label_count)
        × (get_subdomains b d (negsuc n) ≡ err invalid_label_count)
  get_subdomains_cases d n v = (
    λ lt. lower d n (omega arith) ∙ joined d (length d.labels - n) (omega arith) v,
    λ e.
        lower d n (omega arith)
        ∙ ap (λ k. of_string b (b.join (take k d.labels) dot)) {y = 0} (omega arith)
        ∙ nothing_left,
    λ gt. too_many d n gt,
    negative d n,
  )
