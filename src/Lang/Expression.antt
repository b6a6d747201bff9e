-- ===== src/Lang/Expression.antt =====
-- pkg/lang/expression/expression.go and cache.go: Boolean expressions and the cache of compiled
-- ones. Compilation and evaluation are those of govaluate, which is a parameter.
pub mod Cache
use aptomi.Base.{String, Bool, false, none, some}
use aptomi.Base.Dict.{Dict, lookup, insert}
use aptomi.Base.Result.{Result, ok, err}

-- What govaluate's Evaluate may return.
pub data Evaluated : Type 0 where
  missing_parameter : Evaluated
  failed : String → Evaluated
  bool : Bool → Evaluated
  other : Evaluated

pub data ExpressionError : Type 0 where
  unable_to_compile : String → String → ExpressionError
  unable_to_evaluate : String → String → ExpressionError
  not_a_bool : String → ExpressionError

pub record Govaluate : Type 1 where
  pub Compiled : Type 0
  pub Parameters : Type 0
  pub compile : String → Result String Compiled
  pub evaluate : Compiled → Parameters → Evaluated

module _ (g : Govaluate) where
  open g use {Compiled, Parameters, compile, evaluate}

  -- expressionStr and expressionCompiled.
  abbrev pub Expression : Type 0
  Expression = String × Compiled

  -- The `in` function that it registers stands in `compile`.
  unfoldable pub new_expression : String → Result ExpressionError Expression
  new_expression text = elim (compile text) [
    | err e ↦ err (unable_to_compile text e)
    | ok compiled ↦ ok (text, compiled)
  ]

  -- A missing parameter counts as false.
  unfoldable pub evaluate_as_bool : Expression → Parameters → Result ExpressionError Bool
  evaluate_as_bool (text, compiled) params = elim (evaluate compiled params) [
    | missing_parameter ↦ ok false
    | failed e ↦ err (unable_to_evaluate text e)
    | other ↦ err (not_a_bool text)
    | bool b ↦ ok b
  ]

  abbrev pub Cache : Type 0
  Cache = Dict Expression

  -- Cache.EvaluateAsBool: the cache afterwards, and the result.
  unfoldable pub cached_evaluate : Cache → String → Parameters → Cache × Result ExpressionError Bool
  unfolding new_expression evaluate_as_bool
  cached_evaluate cache text params = elim (lookup text cache) [
    | some expression ↦ (cache, evaluate_as_bool expression params)
    | none ↦ elim (new_expression text) [
      | err e ↦ (cache, err e)
      | ok expression ↦ (insert text expression cache, evaluate_as_bool expression params)
    ]
  ]
