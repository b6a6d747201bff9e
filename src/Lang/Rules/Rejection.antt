-- ===== src/Lang/Rules/Rejection.antt =====
-- pkg/engine/resolve/policy_resolver_node.go: when the rules reject a dependency.
use aptomi.Base.{
  String, Bool, true, false, ◌||◌, ◌≡◌, refl, inl, inr, some, List, [], ◌∷◌, ◌==◌, Bool-cases, ltb,
  arith, if◌then◌else◌,
}
use aptomi.Base.Dict.{Dict}
use aptomi.Base.Lists.{All}
use aptomi.Base.Result.{Result, ok, err, Result-cases}
use aptomi.Lang.Criteria.{matches}
use aptomi.Lang.Labels.{Labels}
use aptomi.Lang.Objects.{Rule}
use aptomi.Lang.Rules.{
  RuleActionResult, dependency_not_allowed, reject, apply_rule_actions, insert_rule, sort_rules,
  process_rules_list, process_rules_within_namespace,
}

abbrev pub rules_in : Dict Rule → List Rule
rules_in [] = []
rules_in ((_, r) ∷ d) = r ∷ rules_in d

-- The two places where a rule may be inserted.
branch-All :
    (P : Rule → Type 0) (r s : Rule) (rs inserted : List Rule) (b : Bool)
    → (All P inserted → P r × All P rs)
    → All P (if b then s ∷ inserted else r ∷ s ∷ rs)
    → P r × (P s × All P rs)
branch-All P r s rs inserted true f h = let (x, xs) = f h.1 in (x, (h.0, xs))
branch-All P r s rs inserted false f h = h

insert_rule-All :
    (P : Rule → Type 0) (r : Rule) (rs : List Rule) → All P (insert_rule r rs) → P r × All P rs
unfolding insert_rule
insert_rule-All P r [] h = h
insert_rule-All P r (s ∷ rs) h =
    branch-All P r s rs (insert_rule r rs) (ltb s.weight r.weight) (insert_rule-All P r rs) h

insert_branch-All :
    (P : Rule → Type 0) (r s : Rule) (rs inserted : List Rule) (b : Bool)
    → All P inserted
    → P r
    → P s × All P rs
    → All P (if b then s ∷ inserted else r ∷ s ∷ rs)
insert_branch-All P r s rs inserted true all here rest = (rest.0, all)
insert_branch-All P r s rs inserted false all here rest = (here, rest)

insert_rule-All_back :
    (P : Rule → Type 0) (r : Rule) (rs : List Rule) → P r → All P rs → All P (insert_rule r rs)
unfolding insert_rule
insert_rule-All_back P r [] here h = (here, tt)
insert_rule-All_back P r (s ∷ rs) here h =
    insert_branch-All P r s rs (insert_rule r rs) (ltb s.weight r.weight)
      (insert_rule-All_back P r rs here h.1) here h

sort_rules-All : (P : Rule → Type 0) (d : Dict Rule) → All P (sort_rules d) → All P (rules_in d)
unfolding sort_rules
sort_rules-All P [] h = tt
sort_rules-All P ((_, r) ∷ d) h =
    let (here, rest) = insert_rule-All P r (sort_rules d) h in (here, sort_rules-All P d rest)

module _ {E : Type 0} (evaluate : String → Result E Bool) where
  -- A rule that matches and rejects dependencies.
  abbrev pub rejects : Rule → Bool
  rejects rule = elim (matches evaluate rule.criteria) [
    | ok true ↦ rule.actions.dependency == reject
    | ok false ↦ false
    | err _ ↦ false
  ]

  abbrev pub some_rejects : List Rule → Bool
  some_rejects [] = false
  some_rejects (rule ∷ rest) = rejects rule || some_rejects rest

  abbrev Allowed : Rule → Type 0
  Allowed rule = rejects rule ≡ false

  some_rejects-false : (rules : List Rule) → All Allowed rules → some_rejects rules ≡ false
  some_rejects-false [] h = refl
  some_rejects-false (rule ∷ rest) (here, h) = ground (arith, here, some_rejects-false rest h)

  All-some_rejects : (rules : List Rule) → some_rejects rules ≡ false → All Allowed rules
  All-some_rejects [] h = tt
  All-some_rejects (rule ∷ rest) h = (ground (arith, h), All-some_rejects rest (ground (arith, h)))

  process_rules_list-Allowed :
      (rules : List Rule) (result result' : RuleActionResult)
      → process_rules_list evaluate rules result ≡ ok result'
      → All Allowed rules
  unfolding process_rules_list apply_rule_actions
  process_rules_list-Allowed [] result result' h = tt
  process_rules_list-Allowed (rule ∷ rest) result result' h =
      elim (Result-cases (matches evaluate rule.criteria)) [
        | inr (e, failed) ↦ ground (arith, h, failed)
        | inl (false, passed) ↦ (
          ground (arith, passed),
          process_rules_list-Allowed rest result result' (ground (arith, h, passed)),
        )
        | inl (true, passed) ↦ (
          ground (arith, h, passed),
          process_rules_list-Allowed rest (apply_rule_actions rule result) result'
              (ground (arith, h, passed)),
        )
      ]

  process_rules_list-rejecting :
      (rules : List Rule) (result : RuleActionResult)
      → process_rules_list evaluate rules result ≡ err dependency_not_allowed
      → All Allowed rules
      → ⊥
  unfolding process_rules_list apply_rule_actions
  process_rules_list-rejecting [] result h all = ground (arith, h)
  process_rules_list-rejecting (rule ∷ rest) result h (fine, all) =
      elim (Result-cases (matches evaluate rule.criteria)) [
        | inr (e, failed) ↦ ground (arith, h, failed)
        | inl (false, passed) ↦
            process_rules_list-rejecting rest result (ground (arith, h, passed)) all
        | inl (true, passed) ↦
            process_rules_list-rejecting rest (apply_rule_actions rule result)
              (ground (arith, h, passed, fine)) all
      ]

sort_rules-All_back :
    (P : Rule → Type 0) (d : Dict Rule) → All P (rules_in d) → All P (sort_rules d)
unfolding sort_rules
sort_rules-All_back P [] h = tt
sort_rules-All_back P ((_, r) ∷ d) h =
    insert_rule-All_back P r (sort_rules d) h.0 (sort_rules-All_back P d h.1)

-- If the rules of a namespace are processed without an error, then none of those that match at the
-- labels before them rejects dependencies.
pub process_rules_within_namespace-ok :
    {E : Type 0} (evaluate : Labels → String → Result E Bool) (rules : Dict Rule)
    (result result' : RuleActionResult)
    → process_rules_within_namespace evaluate (some rules) result ≡ ok result'
    → some_rejects (evaluate result.labels) (rules_in rules) ≡ false
unfolding process_rules_within_namespace
process_rules_within_namespace-ok evaluate rules result result' h =
    some_rejects-false (evaluate result.labels) (rules_in rules) (
      sort_rules-All (λ r. rejects (evaluate result.labels) r ≡ false) rules
        (process_rules_list-Allowed (evaluate result.labels) (sort_rules rules) result result' h))

-- If the rules of a namespace end with the error that the dependency is not allowed, then one of
-- those that match at the labels before them rejects dependencies.
pub process_rules_within_namespace-not_allowed :
    {E : Type 0} (evaluate : Labels → String → Result E Bool) (rules : Dict Rule)
    (result : RuleActionResult)
    → process_rules_within_namespace evaluate (some rules) result ≡ err dependency_not_allowed
    → some_rejects (evaluate result.labels) (rules_in rules) ≡ true
unfolding process_rules_within_namespace
process_rules_within_namespace-not_allowed evaluate rules result h =
    elim (Bool-cases (some_rejects (evaluate result.labels) (rules_in rules))) [
      | inl some_one ↦ some_one
      | inr no_one ↦ absurd (
          process_rules_list-rejecting (evaluate result.labels) (sort_rules rules) result h (
            sort_rules-All_back (λ r. rejects (evaluate result.labels) r ≡ false) rules
              (All-some_rejects (evaluate result.labels) (rules_in rules) no_one)))
    ]
