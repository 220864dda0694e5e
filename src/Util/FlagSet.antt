-- ===== src/Util/FlagSet.antt =====
-- `Util::FlagSet` (src/util/flagset.hh, src/util/flagset_impl.hh). A flag is a type, known here by a
-- number; a `std::bitset` is the list of its bits, the lowest first. The static assertions keep the
-- flags of a set distinct and those of an operation among them.
pub mod View
pub mod Unique
use fred_libfred.Common.{
  ℕ, zero, suc, ◌≡◌, List, [], ◌∷◌, map, length, ◌==◌, any, all, if◌then◌else◌, Bool, true, false,
  not, ◌&&◌, ◌||◌,
}

-- `std::bitset`.
abbrev pub Bits : Type 0
Bits = List Bool

abbrev pub xor : Bool → Bool → Bool
xor true b = not b
xor false b = b

abbrev pub zip : (Bool → Bool → Bool) → Bits → Bits → Bits
zip op [] t = []
zip op (a ∷ s) [] = []
zip op (a ∷ s) (b ∷ t) = op a b ∷ zip op s t

abbrev pub test : ℕ → Bits → Bool
test i [] = false
test zero (b ∷ s) = b
test (suc i) (b ∷ s) = test i s

abbrev pub set_bit : ℕ → Bits → Bits
set_bit i [] = []
set_bit zero (b ∷ s) = true ∷ s
set_bit (suc i) (b ∷ s) = b ∷ set_bit i s

abbrev pub bits_of : {A : Type 0} → Bool → List A → Bits
bits_of b [] = []
bits_of b (x ∷ xs) = b ∷ bits_of b xs

abbrev pub same_bits : Bits → Bits → Bool
same_bits [] [] = true
same_bits (a ∷ s) (b ∷ t) = not (xor a b) && same_bits s t
same_bits _ _ = false

-- `IsUnique` of a first flag and the others.
unfoldable pub is_unique_from : ℕ → List ℕ → Bool
is_unique_from t0 [] = true
is_unique_from t0 (t1 ∷ ts) =
    if t0 == t1 then false else is_unique_from t0 ts && is_unique_from t1 ts

unfoldable pub is_unique : List ℕ → Bool
is_unique [] = true
is_unique (t ∷ ts) = is_unique_from t ts

-- `Get::distance_from_head`, and the index that `set_bits` takes.
unfoldable pub index_of : ℕ → List ℕ → ℕ
index_of f [] = zero
index_of f (g ∷ gs) = if f == g then zero else suc (index_of f gs)

module _ (flags : List ℕ) where
  unfoldable pub set_bits : Bits → List ℕ → Bits
  set_bits mask [] = mask
  set_bits mask (idx ∷ idxs) = set_bits (set_bit idx mask) idxs

  unfoldable pub mask_of : List ℕ → Bits
  mask_of fs = set_bits (bits_of false flags) (map (λ f. index_of f flags) fs)

  -- The bits of `FlagSet()`.
  abbrev pub new_flag_set : Bits
  new_flag_set = bits_of false flags

  unfoldable pub is_set : ℕ → Bits → Bool
  is_set f s = test (index_of f flags) s

  unfoldable pub set : List ℕ → Bits → Bits
  set fs s = zip (λ a b. a || b) s (mask_of fs)

  unfoldable pub reset : List ℕ → Bits → Bits
  reset fs s = zip (λ a b. a && b) s (map not (mask_of fs))

  unfoldable pub flip : List ℕ → Bits → Bits
  flip fs s = zip xor s (mask_of fs)

  -- `set(bool)`.
  unfoldable pub set_to : Bool → List ℕ → Bits → Bits
  set_to value fs s = if value then set fs s else reset fs s

  unfoldable pub are_set_all_of : List ℕ → Bits → Bool
  are_set_all_of fs s = same_bits (zip (λ a b. a && b) s (mask_of fs)) (mask_of fs)

  unfoldable pub are_set_any_of : List ℕ → Bits → Bool
  are_set_any_of fs s = not (same_bits (zip (λ a b. a && b) s (mask_of fs)) new_flag_set)

  unfoldable pub are_unset_all_of : List ℕ → Bits → Bool
  are_unset_all_of fs s = same_bits (zip (λ a b. a && b) s (mask_of fs)) new_flag_set

  unfoldable pub are_unset_any_of : List ℕ → Bits → Bool
  are_unset_any_of fs s = not (same_bits (zip (λ a b. a && b) s (mask_of fs)) (mask_of fs))
