-- ===== src/Util/FlagSet/View.antt =====
-- A set of flags as the predicate that holds of the flags that are set.
use fred_libfred.Common.{
  ℕ, zero, suc, ◌<◌, ◌≡◌, refl, sym, ap, ◌∙◌, List, [], ◌∷◌, map, length, arith, All, ◌==◌, any,
  Bool, true, false, not, ◌&&◌, ◌||◌,
}
use fred_libfred.Util.FlagSet.{
  Bits, xor, zip, test, set_bit, bits_of, index_of, set_bits, mask_of, is_set, set, reset, flip,
}

abbrev pub contains : ℕ → List ℕ → Bool
contains f fs = any (λ g. g == f) fs

index_bound : (f : ℕ) (flags : List ℕ) → contains f flags ≡ true → index_of f flags < length flags
unfolding index_of
index_bound f [] h = cc
index_bound f (g ∷ gs) h = ground (arith, index_bound f gs)

-- Two flags of the set with one index are the same.
index_injective :
    (f g : ℕ) (flags : List ℕ)
    → contains f flags ≡ true
    → contains g flags ≡ true
    → (index_of g flags == index_of f flags) ≡ (g == f)
unfolding index_of
index_injective f g [] h k = cc
index_injective f g (x ∷ xs) h k = ground (arith, index_injective f g xs)

test-zip :
    (op : Bool → Bool → Bool) (s t : Bits) (i : ℕ)
    → i < length s
    → length t ≡ length s
    → test i (zip op s t) ≡ op (test i s) (test i t)
test-zip op [] t i h e = ground arith
test-zip op (a ∷ s) [] i h e = ground arith
test-zip op (a ∷ s) (b ∷ t) zero h e = refl
test-zip op (a ∷ s) (b ∷ t) (suc i) h e = test-zip op s t i (omega arith) (omega arith)

test-map-not : (s : Bits) (i : ℕ) → i < length s → test i (map not s) ≡ not (test i s)
test-map-not [] i h = ground arith
test-map-not (a ∷ s) zero h = refl
test-map-not (a ∷ s) (suc i) h = test-map-not s i (omega arith)

length-set_bit : (i : ℕ) (s : Bits) → length (set_bit i s) ≡ length s
length-set_bit i [] = refl
length-set_bit zero (b ∷ s) = refl
length-set_bit (suc i) (b ∷ s) = ap suc (length-set_bit i s)

test-set_bit : (i j : ℕ) (s : Bits) → i < length s → test i (set_bit j s) ≡ (j == i || test i s)
test-set_bit i j [] h = ground arith
test-set_bit zero zero (b ∷ s) h = refl
test-set_bit zero (suc j) (b ∷ s) h = ground arith
test-set_bit (suc i) zero (b ∷ s) h = ground arith
test-set_bit (suc i) (suc j) (b ∷ s) h =
    test-set_bit i j s (omega arith) ∙ ap (λ c. c || test i s) (ground arith)

length-map-not : (s : Bits) → length (map not s) ≡ length s
length-map-not [] = refl
length-map-not (a ∷ s) = ap suc (length-map-not s)

test-false : (flags : List ℕ) (i : ℕ) → test i (bits_of false flags) ≡ false
test-false [] i = refl
test-false (f ∷ fs) zero = refl
test-false (f ∷ fs) (suc i) = test-false fs i

length-bits_of : (b : Bool) (flags : List ℕ) → length (bits_of b flags) ≡ length flags
length-bits_of b [] = refl
length-bits_of b (f ∷ fs) = ap suc (length-bits_of b fs)

module _ (flags : List ℕ) where
  length-set_bits : (mask : Bits) (idxs : List ℕ) → length (set_bits flags mask idxs) ≡ length mask
  unfolding set_bits
  length-set_bits mask [] = refl
  length-set_bits mask (j ∷ js) = length-set_bits (set_bit j mask) js ∙ length-set_bit j mask

  test-set_bits :
      (i : ℕ) (mask : Bits) (idxs : List ℕ)
      → i < length mask
      → test i (set_bits flags mask idxs) ≡ (any (λ j. j == i) idxs || test i mask)
  unfolding set_bits
  test-set_bits i mask [] h = refl
  test-set_bits i mask (j ∷ js) h = ground (
    arith,
    test-set_bits i (set_bit j mask) js (omega (arith, length-set_bit j mask)),
    test-set_bit i j mask h,
  )

  any-index :
      (f : ℕ) (fs : List ℕ)
      → contains f flags ≡ true
      → All (λ g. contains g flags ≡ true) fs
      → any (λ j. j == index_of f flags) (map (λ g. index_of g flags) fs) ≡ contains f fs
  any-index f [] h a = refl
  any-index f (g ∷ gs) h (k, a) = ground (arith, index_injective f g flags h k, any-index f gs h a)

  or_false : (x : Bool) → (x || false) ≡ x
  or_false true = refl
  or_false false = refl

  length-mask_of : (fs : List ℕ) → length (mask_of flags fs) ≡ length flags
  unfolding mask_of
  length-mask_of fs =
      length-set_bits (bits_of false flags) (map (λ g. index_of g flags) fs)
      ∙ length-bits_of false flags

  test-mask_of :
      (f : ℕ) (fs : List ℕ)
      → contains f flags ≡ true
      → All (λ g. contains g flags ≡ true) fs
      → test (index_of f flags) (mask_of flags fs) ≡ contains f fs
  unfolding mask_of
  test-mask_of f fs h a =
      test-set_bits (index_of f flags) (bits_of false flags) (map (λ g. index_of g flags) fs)
        (omega (arith, index_bound f flags h, length-bits_of false flags))
      ∙ rw (test-false flags (index_of f flags)) (
          or_false (any (λ j. j == index_of f flags) (map (λ g. index_of g flags) fs))
          ∙ any-index f fs h a)

  -- On a set with a bit for each flag, and for flags among its own: setting adds the flags that
  -- are named, resetting removes them, and flipping changes each of them once, however often it
  -- is named.
  pub is_set-operations :
      (s : Bits) (f : ℕ) (fs : List ℕ)
      → length s ≡ length flags
      → contains f flags ≡ true
      → All (λ g. contains g flags ≡ true) fs
      → (is_set flags f (set flags fs s) ≡ (is_set flags f s || contains f fs))
        × (is_set flags f (reset flags fs s) ≡ (is_set flags f s && not (contains f fs)))
        × (is_set flags f (flip flags fs s) ≡ xor (is_set flags f s) (contains f fs))
  unfolding is_set set reset flip
  is_set-operations s f fs e h a =
      let i = index_of f flags in
      let lt : i < length s = omega (arith, index_bound f flags h) in
      let m = mask_of flags fs in
      let bit : test i m ≡ contains f fs = test-mask_of f fs h a in
      let size : length m ≡ length s = length-mask_of fs ∙ sym e in
      (
        test-zip (λ a b. a || b) s m i lt size ∙ ap (λ b. test i s || b) bit,
        test-zip (λ a b. a && b) s (map not m) i lt (length-map-not m ∙ size)
            ∙ ap (λ b. test i s && b) (test-map-not m i (omega arith) ∙ ap not bit),
        test-zip xor s m i lt size ∙ ap (λ b. xor (test i s) b) bit,
      )
