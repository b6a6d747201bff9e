-- ===== src/Lang/Expression/Cache.antt =====
-- The cache of compiled expressions changes no result.
use aptomi.Base.{String, ◌≡◌, refl, ap, Bool, some, inl, inr, List, [], ◌∷◌, arith, Option-cases}
use aptomi.Base.Dict.{lookup, insert, lookup-nil, lookup-insert}
use aptomi.Base.Result.{Result, ok, ◌>>=◌, Result-cases}
use aptomi.Lang.Expression.{
  Govaluate, Expression, ExpressionError, Cache, new_expression, evaluate_as_bool, cached_evaluate,
}

module _ (g : Govaluate) where
  -- Every cached expression is what its text compiles to.
  pub record IsSound (cache : Cache g) : Type 0 where
    pub compiled :
        (text : String) (expression : Expression g)
        → lookup text cache ≡ some expression
        → new_expression g text ≡ ok expression

  -- Evaluation with no cache.
  unfoldable pub direct : String → g.Parameters → Result ExpressionError Bool
  direct text params = new_expression g text >>= λ e. evaluate_as_bool g e params

  -- A run of evaluations that share the cache.
  unfoldable pub evaluate_all :
      Cache g → List (String × g.Parameters) → List (Result ExpressionError Bool)
  evaluate_all cache [] = []
  evaluate_all cache ((text, params) ∷ rest) =
      let (cache', result) = cached_evaluate g cache text params in
      result ∷ evaluate_all cache' rest

  unfoldable pub direct_all : List (String × g.Parameters) → List (Result ExpressionError Bool)
  direct_all [] = []
  direct_all ((text, params) ∷ rest) = direct text params ∷ direct_all rest

  insert-IsSound :
      (cache : Cache g) (text : String) (expression : Expression g)
      → IsSound cache
      → new_expression g text ≡ ok expression
      → IsSound (insert text expression cache)
  insert-IsSound cache text expression sound e = record {
    compiled = λ j x h. ground (arith, lookup-insert j text expression cache, sound.compiled j x);
  }

  cached_evaluate_lem :
      (cache : Cache g) (text : String) (params : g.Parameters)
      → IsSound cache
      → IsSound (cached_evaluate g cache text params).0
        × ((cached_evaluate g cache text params).1 ≡ direct text params)
  unfolding cached_evaluate direct
  cached_evaluate_lem cache text params sound = elim (Option-cases (lookup text cache)) [
    | inr (x, found) ↦ rw (found, cached_evaluate) (sound, rw (sound.compiled text x found))
    | inl absent ↦ elim (Result-cases (new_expression g text)) [
      | inl (x, compiled) ↦
          rw (absent, cached_evaluate, compiled) (insert-IsSound cache text x sound compiled, refl)
      | inr (e, failed) ↦ rw (absent, cached_evaluate, failed) (sound, refl)
    ]
  ]

  pub evaluate_all_lem :
      (cache : Cache g) (queries : List (String × g.Parameters))
      → IsSound cache
      → evaluate_all cache queries ≡ direct_all queries
  unfolding evaluate_all direct_all
  evaluate_all_lem cache [] sound = refl
  evaluate_all_lem cache ((text, params) ∷ rest) sound =
      let (sound', same) = cached_evaluate_lem cache text params sound in
      rw same (
        ap (λ l. direct text params ∷ l)
          (evaluate_all_lem (cached_evaluate g cache text params).0 rest sound'))

  -- From the empty cache, any sequence of evaluations gives what evaluation without a cache gives.
  pub cache_transparent :
      (queries : List (String × g.Parameters)) → evaluate_all [] queries ≡ direct_all queries
  cache_transparent queries =
      evaluate_all_lem [] queries (record { compiled = λ text x h. cc (lookup-nil text, h) })
