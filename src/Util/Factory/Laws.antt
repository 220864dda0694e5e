-- ===== src/Util/Factory/Laws.antt =====
-- What the operations of a factory promise one another.
use fred_libfred.Common.{
  ◌≡◌, refl, ◌≢◌, ◌↔◌, List, [], ◌∷◌, ◌++◌, arith, Text, text_eq, text_eq_iff, text_eq_refl, any,
  All, All_mono, all→All, All→all, if◌then◌else◌, true, false, ok, err, Option, none, some,
}
use fred_libfred.Util.Factory.{
  Factory, uniqueness_violation, find, is_some, has_key, add_producer, at, or_not_registered,
  is_each_key_in_factory,
}

module _ {ℓ} {P : Type ℓ} where
  find-append :
      (m n : List (Text × P)) (k : Text)
      → find k (m ++ n) ≡ (if is_some (find k m) then find k m else find k n)
  unfolding find
  find-append [] n k = refl
  find-append ((j, p) ∷ m) n k = ground (arith, find-append m n k)

  -- Adding a producer under a new key makes that key find it and leaves the other keys as they
  -- were; under a key that is taken it throws.
  pub at-add_producer :
      (f : Factory P) (k : Text) (p : P)
      → (has_key f k ≡ true → add_producer (k, p) f ≡ err uniqueness_violation)
        × (has_key f k ≡ false
            → (g : Factory P) × (add_producer (k, p) f ≡ ok g)
              × (at g k ≡ ok p)
              × ((j : Text) → j ≢ k → at g j ≡ at f j))
  unfolding add_producer at find
  at-add_producer f k p = (λ h. ground arith, λ h. (grown, ground arith, here h, other))
    where
      grown : Factory P
      grown = record { key_producer_map = f.key_producer_map ++ (k, p) ∷ [] }

      here : has_key f k ≡ false → at grown k ≡ ok p
      here h = ground (arith, find-append f.key_producer_map ((k, p) ∷ []) k, text_eq_refl k)

      other : (j : Text) → j ≢ k → at grown j ≡ at f j
      other j ne = ground (arith, find-append f.key_producer_map ((k, p) ∷ []) j, text_eq_iff k j)

  any-is_some :
      (k : Text) (m : List (Text × P)) → any (λ entry. text_eq entry.0 k) m ≡ is_some (find k m)
  unfolding find
  any-is_some k [] = refl
  any-is_some k ((j, p) ∷ m) = ground (arith, any-is_some k m)

  -- The check of a list of keys passes exactly if the factory has each of them.
  pub is_each_key_in_factory_iff :
      (f : Factory P) (ks : List Text)
      → (is_each_key_in_factory f ks ≡ true) ↔ All (λ k. has_key f k ≡ true) ks
  unfolding is_each_key_in_factory has_key
  is_each_key_in_factory_iff f ks = (
    λ h. All_mono ks (λ k e. cc (any-is_some k f.key_producer_map)) (all→All _ ks h),
    λ h. All→all _ ks (All_mono ks (λ k e. cc (any-is_some k f.key_producer_map)) h),
  )

  some-or_not_registered :
      (o : Option P) → is_some o ≡ true → (p : P) × (or_not_registered o ≡ ok p)
  some-or_not_registered none h = cc
  some-or_not_registered (some p) h = (p, refl)

  -- `operator[]` answers for the keys that the factory has.
  pub at-has_key : (f : Factory P) (k : Text) → has_key f k ≡ true → (p : P) × (at f k ≡ ok p)
  unfolding has_key at
  at-has_key f k h = some-or_not_registered (find k f.key_producer_map) h
