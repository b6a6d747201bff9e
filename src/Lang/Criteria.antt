-- ===== src/Lang/Criteria.antt =====
-- pkg/lang/criteria.go: criteria over Boolean expressions. `evaluate` is Cache.EvaluateAsBool at the
-- parameters of the call; the cache changes no result (Lang/Expression/Cache).
pub mod Allows
use aptomi.Base.{String, Bool, true, false, Option, none, some, List, [], ◌∷◌}
use aptomi.Base.Result.{Result, ok, err}

pub record Criteria : Type 0 where
  pub require_all : List String
  pub require_any : List String
  pub require_none : List String

module _ {E : Type 0} (evaluate : String → Result E Bool) where
  -- The three loops of `allows`; what follows a loop is its last argument.
  unfoldable pub check_all : List String → Result E Bool → Result E Bool
  check_all [] next = next
  check_all (x ∷ xs) next = elim (evaluate x) [
    | err e ↦ err e
    | ok true ↦ check_all xs next
    | ok false ↦ ok false
  ]

  unfoldable pub check_none : List String → Result E Bool → Result E Bool
  check_none [] next = next
  check_none (x ∷ xs) next = elim (evaluate x) [
    | err e ↦ err e
    | ok true ↦ ok false
    | ok false ↦ check_none xs next
  ]

  unfoldable pub check_any : List String → Result E Bool
  check_any [] = ok false
  check_any (x ∷ xs) = elim (evaluate x) [
    | err e ↦ err e
    | ok true ↦ ok true
    | ok false ↦ check_any xs
  ]

  unfoldable pub check_any_if_given : List String → Result E Bool
  unfolding check_any
  check_any_if_given [] = ok true
  check_any_if_given (x ∷ xs) = check_any (x ∷ xs)

  unfoldable pub allows : Criteria → Result E Bool
  unfolding check_all check_none check_any_if_given
  allows c = check_all c.require_all (check_none c.require_none (check_any_if_given c.require_any))

  -- The method Matches of contexts, rules, ACL rules and components: no criteria match always.
  unfoldable pub matches : Option Criteria → Result E Bool
  unfolding allows
  matches none = ok true
  matches (some c) = allows c
