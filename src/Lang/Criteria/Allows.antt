-- ===== src/Lang/Criteria/Allows.antt =====
-- When criteria allow, deny and fail.
use aptomi.Base.{String, ◌≡◌, refl, ◌↔◌, ◌⊎◌, Bool, true, false, List, [], ◌∷◌, arith}
use aptomi.Base.Lists.{All}
use aptomi.Base.Result.{Result, ok}
use aptomi.Lang.Criteria.{Criteria, check_all, check_none, check_any, check_any_if_given, allows}

module _ {E : Type 0} (evaluate : String → Result E Bool) where
  abbrev pub Holds : String → Type 0
  Holds x = evaluate x ≡ ok true

  abbrev pub Fails : String → Type 0
  Fails x = evaluate x ≡ ok false

  -- Some expression holds, and those before it are false.
  abbrev pub HoldsFirst : List String → Type 0
  HoldsFirst [] = ⊥
  HoldsFirst (x ∷ xs) = Holds x ⊎ (Fails x × HoldsFirst xs)

  abbrev pub HoldsSome : List String → Type 0
  HoldsSome [] = Unit
  HoldsSome (x ∷ xs) = HoldsFirst (x ∷ xs)

  check_all_iff :
      (xs : List String) (next : Result E Bool)
      → (check_all evaluate xs next ≡ ok true) ↔ (All Holds xs × (next ≡ ok true))
  unfolding check_all
  check_all_iff [] next = (λ h. (tt, h), λ h. h.1)
  check_all_iff (x ∷ xs) next = ground (arith, check_all_iff xs next)

  check_none_iff :
      (xs : List String) (next : Result E Bool)
      → (check_none evaluate xs next ≡ ok true) ↔ (All Fails xs × (next ≡ ok true))
  unfolding check_none
  check_none_iff [] next = (λ h. (tt, h), λ h. h.1)
  check_none_iff (x ∷ xs) next = ground (arith, check_none_iff xs next)

  check_any_iff : (xs : List String) → (check_any evaluate xs ≡ ok true) ↔ HoldsFirst xs
  unfolding check_any
  check_any_iff [] = (λ h. cc, λ h. absurd h)
  check_any_iff (x ∷ xs) = ground (arith, check_any_iff xs)

  check_any_if_given_iff :
      (xs : List String) → (check_any_if_given evaluate xs ≡ ok true) ↔ HoldsSome xs
  unfolding check_any_if_given
  check_any_if_given_iff [] = (λ h. tt, λ h. refl)
  check_any_if_given_iff (x ∷ xs) = check_any_iff (x ∷ xs)

  -- Criteria allow exactly when every require-all expression is true, every require-none
  -- expression is false, and, if there are require-any expressions, one of them is true and
  -- those before it are false.
  pub allows_iff :
      (c : Criteria)
      → (allows evaluate c ≡ ok true)
        ↔ (All Holds c.require_all × All Fails c.require_none × HoldsSome c.require_any)
  unfolding allows
  allows_iff c = grind (
    arith,
    check_all_iff c.require_all,
    check_none_iff c.require_none,
    check_any_if_given_iff c.require_any,
  )
