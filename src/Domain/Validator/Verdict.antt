-- ===== src/Domain/Validator/Verdict.antt =====
-- The verdict of a validator whose checkers are known and whose zone and context are set.
use fred_libfred.Boost.{StringAlgorithms, RegexEngine}
use fred_libfred.Common.{
  ℤ, ◌≡◌, refl, List, [], ◌∷◌, ◌++◌, arith, Text, all, All, All-append, if◌then◌else◌, Bool, true,
  false, ◌&&◌, ◌||◌, Bool-cases, inl, inr, ok_injective, Result, ok, err, ◌>>=◌,
}
use fred_libfred.Domain.Name.{DomainName, get_subdomains}
use fred_libfred.Domain.Checker.{
  Checker, validate, default_factory, get_default_domain_name_checker_factory_made,
}
use fred_libfred.Domain.Validator.{
  Validator, ValidatorError, add, set_checker_names, lift_factory, is_set, check_one, check_all,
  exec,
}
use fred_libfred.Util.Factory.{
  Factory, FactoryError, is_each_key_in_factory, has_key, at, require_superset,
}
use fred_libfred.Util.Factory.Laws.{is_each_key_in_factory_iff, at-has_key}

-- All the checker names are registered.
abbrev pub Known : List Text → Type 0
Known = All (λ n. has_key default_factory n ≡ true)

-- The check of the names, at the factory that is used.
require-Known :
    (ns : List Text) {A : Type 0} (next : Result ValidatorError A) {a : A}
    → (lift_factory (require_superset default_factory ns) >>= λ _. next) ≡ ok a
    → Known ns × (next ≡ ok a)
unfolding require_superset
require-Known ns next h = elim (Bool-cases (is_each_key_in_factory default_factory ns)) [
  | inl e ↦ ((is_each_key_in_factory_iff default_factory ns).0 e, ground arith)
  | inr e ↦ ground arith
]

-- If the checker names that a validator holds are registered, and `add` returns, those that it holds
-- then are registered as well.
pub add-Known :
    (n : Text) (v : Validator) {w : Validator}
    → Known v.checker_names
    → add n v ≡ ok w
    → Known w.checker_names
unfolding add
add-Known n v k h =
    let (known, e) =
      require-Known (n ∷ []) (ok (record v { checker_names = v.checker_names ++ n ∷ [] }))
        (rw get_default_domain_name_checker_factory_made at h) in
    rw (← ok_injective e)
      (All-append (λ m. has_key default_factory m ≡ true) v.checker_names (n ∷ []) k known)

set_names-Known :
    (system : Bool) (ns : List Text) (v : Validator) {w : Validator}
    → Known v.checker_names
    → (if system
        then ok v
        else (lift_factory (require_superset default_factory ns) >>= λ _.
            ok (record v { checker_names = ns })))
      ≡ ok w
    → Known w.checker_names
set_names-Known true ns v k h = rw (← ok_injective h) k
set_names-Known false ns v k h =
    let (known, made) = require-Known ns (ok (record v { checker_names = ns })) h in
    rw (← ok_injective made) known

-- After set_checker_names the checker names that a validator holds are all registered, if they
-- were before.
set_checker_names-Known :
    (ns : List Text) (v : Validator) {w : Validator}
    → Known v.checker_names
    → set_checker_names ns v ≡ ok w
    → Known w.checker_names
unfolding set_checker_names
set_checker_names-Known ns v k h =
    set_names-Known v.is_system_registrar ns v k
      (rw get_default_domain_name_checker_factory_made at h)

module _ (b : StringAlgorithms) (r : RegexEngine) (f : Factory Checker) where
  -- What the registered checker says; a name that is not registered says nothing.
  abbrev pub says : Validator → DomainName → Result FactoryError Checker → Bool
  says v d (err e) = true
  says v d (ok c) = validate b r c v.zone_name v.ctx d

  abbrev pub passes : Validator → DomainName → Text → Bool
  passes v d n = says v d (at f n)

  check_one-passes :
      (v : Validator) (d : DomainName) (n : Text)
      → is_set v.zone_name ≡ true
      → v.ctx ≡ true
      → has_key f n ≡ true
      → check_one b r f v d n ≡ ok (passes v d n)
  unfolding check_one
  check_one-passes v d n z c k = ground (arith, (at-has_key f n k).1)

  pub check_all-passes :
      (v : Validator) (d : DomainName) (ns : List Text)
      → is_set v.zone_name ≡ true
      → v.ctx ≡ true
      → All (λ n. has_key f n ≡ true) ns
      → check_all b r f v d ns ≡ ok (all (passes v d) ns)
  unfolding check_all
  check_all-passes v d [] z c k = refl
  check_all-passes v d (n ∷ ns) z c (kn, k) =
      rw (check_one-passes v d n z c kn, check_all-passes v d ns z c k) (pick (passes v d n))
    where
      pick :
          (p : Bool)
          → ◌≡◌ {A = Result ValidatorError Bool}
              (if p then ok (all (passes v d) ns) else ok false)
              (ok (p && all (passes v d) ns))
      pick true = refl
      pick false = refl

module _ (b : StringAlgorithms) (r : RegexEngine) where
  -- With the zone name and the context set and known checkers, exec throws nothing once the top
  -- labels are skipped: the verdict is that of all the checkers on the labels left, or true for
  -- the system registrar.
  pub exec-passes :
      (v : Validator) (fqdn : DomainName) (skip : ℤ) (d : DomainName)
      → is_set v.zone_name ≡ true
      → v.ctx ≡ true
      → Known v.checker_names
      → get_subdomains b fqdn skip ≡ ok d
      → exec b r v fqdn skip
        ≡ ok (v.is_system_registrar || all (passes b r default_factory v d) v.checker_names)
  unfolding exec
  exec-passes v fqdn skip d z c k e = rw e (
      ground (
        arith,
        get_default_domain_name_checker_factory_made,
        check_all-passes b r default_factory v d v.checker_names z c k,
      ))
