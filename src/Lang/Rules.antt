-- ===== src/Lang/Rules.antt =====
-- pkg/lang/rule.go and rule_actions.go, and the rule processing of
-- pkg/engine/resolve/policy_resolver_node.go. `evaluate` is the evaluation of an expression with
-- given labels; it stands also for the service and the dependency, which the rules do not change.
pub mod Rejection
use aptomi.Base.{
  String, Bool, true, false, Option, none, some, List, [], ◌∷◌, ◌==◌, ltb, if◌then◌else◌,
}
use aptomi.Base.Dict.{Dict, lookup}
use aptomi.Base.Result.{Result, ok, err, ◌>>=◌}
use aptomi.Lang.Criteria.{matches}
use aptomi.Lang.Labels.{Labels, LabelOperations, apply_transform}
use aptomi.Lang.Objects.{Rule}

abbrev pub reject : String
reject = "reject"

pub record RuleActionResult : Type 0 where
  pub reject_dependency : Bool
  pub reject_ingress : Bool
  pub changed_labels : Bool
  pub labels : Labels

abbrev pub new_rule_action_result : Labels → RuleActionResult
new_rule_action_result labels = record {
  reject_dependency = false;
  reject_ingress = false;
  changed_labels = false;
  labels = labels;
}

-- The nil map of operations changes nothing.
abbrev pub transform_labels : Labels → LabelOperations → Labels × Bool
transform_labels labels none = (labels, false)
transform_labels labels (some ops) = apply_transform labels (some ops)

-- ApplyActions: each matching rule decides anew whether dependency and ingress are rejected.
unfoldable pub apply_rule_actions : Rule → RuleActionResult → RuleActionResult
apply_rule_actions rule result =
    let transformed = transform_labels result.labels rule.actions.change_labels in
    record {
      reject_dependency = rule.actions.dependency == reject;
      reject_ingress = rule.actions.ingress == reject;
      changed_labels = transformed.1;
      labels = transformed.0;
    }

-- sort.Sort by weight; rules of one weight may stand in any order, as the rules come from a map.
unfoldable pub insert_rule : Rule → List Rule → List Rule
insert_rule r [] = r ∷ []
insert_rule r (s ∷ rest) = if ltb s.weight r.weight then s ∷ insert_rule r rest else r ∷ s ∷ rest

unfoldable pub sort_rules : Dict Rule → List Rule
unfolding insert_rule
sort_rules [] = []
sort_rules ((_, r) ∷ rest) = insert_rule r (sort_rules rest)

pub data RuleError (E : Type 0) : Type 0 where
  rule_failed : (rule : String) → E → RuleError E
  dependency_not_allowed : RuleError E

module _ {E : Type 0} where
  -- The loop of processRulesWithinNamespace. The contextual data is a copy of the labels as they are
  -- before the loop, so all rules are evaluated at the same labels.
  unfoldable pub process_rules_list :
      (String → Result E Bool)
      → List Rule
      → RuleActionResult
      → Result (RuleError E) RuleActionResult
  process_rules_list evaluate [] result = ok result
  process_rules_list evaluate (rule ∷ rest) result = elim (matches evaluate rule.criteria) [
    | err e ↦ err (rule_failed rule.metadata.name e)
    | ok false ↦ process_rules_list evaluate rest result
    | ok true ↦
        let result' = apply_rule_actions rule result in
        let others = process_rules_list evaluate rest result' in
        if result'.reject_dependency then err dependency_not_allowed else others
  ]

module _ {E : Type 0} (evaluate : Labels → String → Result E Bool) where
  -- `none` is a namespace that is missing.
  unfoldable pub process_rules_within_namespace :
      Option (Dict Rule) → RuleActionResult → Result (RuleError E) RuleActionResult
  process_rules_within_namespace none result = ok result
  process_rules_within_namespace (some rules) result =
      process_rules_list (evaluate result.labels) (sort_rules rules) result

  -- processRules: the rules of the namespace, then those of the system namespace.
  unfoldable pub process_rules :
      Option (Dict Rule) → Option (Dict Rule) → Labels → Result (RuleError E) RuleActionResult
  process_rules here system labels =
      process_rules_within_namespace here (new_rule_action_result labels)
      >>= process_rules_within_namespace system
