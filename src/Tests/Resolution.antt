-- ===== src/Tests/Resolution.antt =====
-- pkg/engine/resolve: runs, and the theorems at concrete inputs.
use aptomi.Base.{String, string_dec, ◌≡◌, refl, Bool, true, false, ◌&&◌, none, some, [], ◌∷◌, ◌==◌}
use aptomi.Base.Dict.{Dict, lookup, insert, has}
use aptomi.Base.Result.{Result, ok, err}
use aptomi.Util.Params
use aptomi.Util.Params.{Params, end, field, str, deep_equal, bool_eq, size, covered, value_eq}
use aptomi.Lang.Criteria.{matches, allows, check_all, check_none, check_any_if_given}
use aptomi.Lang.Labels.{Labels}
use aptomi.Lang.Objects.{Metadata, Rule, Dependency, dependency, Context, ServiceComponent}
use aptomi.Lang.Components.{get_components_map, put_components}
use aptomi.Lang.Namespaces.{new_policy_namespace, find_kind, stored}
use aptomi.Lang.Namespaces
use aptomi.Lang.Policy.{Policy, get_object, get_by_parts, get_in_namespace}
use aptomi.Base.Text.{split}
use aptomi.Lang.Rules.{
  RuleActionResult, dependency_not_allowed, new_rule_action_result, apply_rule_actions, sort_rules,
  insert_rule, process_rules_list, process_rules_within_namespace,
}
use aptomi.Lang.Rules.Rejection.{
  some_rejects, rules_in, process_rules_within_namespace-ok,
  process_rules_within_namespace-not_allowed,
}
use aptomi.Engine.Keys.{ComponentInstanceKey, get_key, is_service}
use aptomi.Engine.Instances.{
  ComponentInstance, new_component_instance, add_dependency, update_times, combine_params,
  add_code_params, add_discovery_params, append_code, append_params, put_all, put_edges,
}
use aptomi.Engine.Instances
use aptomi.Engine.Instances.Times.{update_times_comm}
use aptomi.Engine.Resolution.{
  PolicyResolution, is_none, search, visit, key_for_storable, get_dependency_resolution,
  append_data, validate, component_in_use, validate_errors, validate_keys, validate_contract,
  validate_service, validate_cluster, has_context, has_component, find_object,
}
use aptomi.Engine.Resolution.Combining.{
  compatible, or_else, combined, append_data-error, lookup-dependency_keys, lookup-append_data,
}
use aptomi.Engine.Resolution.Dependencies.{
  no_error, some_service, resolved-get_dependency_resolution,
}
use aptomi.Engine.Resolution.Valid.{IsValidResolution, validate_iff}

abbrev meta : String → Metadata
meta name = record { namespace = "main"; name = name; generation = 1; deleted = false }

-- Every expression is the name of a label, which holds if its value is "true".
abbrev holds : Labels → String → Result String Bool
holds l x = elim (lookup x l) [ none ↦ err x | some v ↦ ok (v == "true") ]

abbrev rejecting : Rule
rejecting = record {
  metadata = meta "no-dev";
  weight = 5;
  criteria = some (record { require_all = "dev" ∷ []; require_any = []; require_none = [] });
  actions = record { change_labels = none; dependency = "reject"; ingress = "" };
}

abbrev closing : Rule
closing = record {
  metadata = meta "closed";
  weight = 7;
  criteria = none;
  actions = record { change_labels = none; dependency = ""; ingress = "reject" };
}

abbrev rules : Dict Rule
rules = ("closed", closing) ∷ ("no-dev", rejecting) ∷ []

abbrev initial : String → RuleActionResult
initial dev = new_rule_action_result (("dev", dev) ∷ [])

rejected_test :
    process_rules_within_namespace holds (some rules) (initial "true") ≡ err dependency_not_allowed
unfolding process_rules_within_namespace process_rules_list sort_rules insert_rule
    apply_rule_actions matches allows check_all check_none check_any_if_given lookup string_dec
rejected_test = refl

process_rules_within_namespace-not_allowed_test :
    some_rejects (holds (("dev", "true") ∷ [])) (rules_in rules) ≡ true
process_rules_within_namespace-not_allowed_test =
    process_rules_within_namespace-not_allowed holds rules (initial "true") rejected_test

accepted_test :
    process_rules_within_namespace holds (some rules) (initial "false")
    ≡ ok (record (initial "false") { reject_ingress = true })
unfolding process_rules_within_namespace process_rules_list sort_rules insert_rule
    apply_rule_actions matches allows check_all check_none check_any_if_given lookup string_dec
accepted_test = refl

process_rules_within_namespace-ok_example :
    some_rejects (holds (("dev", "false") ∷ [])) (rules_in rules) ≡ false
process_rules_within_namespace-ok_example =
    process_rules_within_namespace-ok holds rules (initial "false")
      (record (initial "false") { reject_ingress = true }) accepted_test

abbrev cik : String → ComponentInstanceKey
cik component = record {
  cluster_namespace = "main";
  cluster_name = "west";
  target_suffix = "apps";
  namespace = "main";
  contract_name = "db";
  context_name = "dev";
  keys_resolved = "";
  context_name_with_keys = "dev";
  service_name = "postgres";
  component_name = component;
}

-- An instance that a dependency keeps, with its code parameters.
abbrev instance_of : String → String → Params → ComponentInstance
instance_of component d params = record (new_component_instance (cik component)) {
  dependency_keys = (d, 0) ∷ [];
  is_code = true;
  calculated_code_params = params;
}

abbrev params : String → Params
params v = field "size" (str v) end

abbrev first : ComponentInstance
first = instance_of "pod" "main/dependency/a" (params "small")

abbrev second : ComponentInstance
second = instance_of "pod" "main/dependency/b" (params "large")

update_times_comm_test :
    update_times 3 7 (update_times 5 6 first) ≡ update_times 5 6 (update_times 3 7 first)
update_times_comm_test = update_times_comm 3 7 5 6 first

append_data-error_test : is_none (Instances.append_data second first).error ≡ (
    is_none first.error
    && (bool_eq first.is_code second.is_code
        && (compatible first.calculated_discovery second.calculated_discovery
            && compatible first.calculated_code_params second.calculated_code_params)))
append_data-error_test = append_data-error second first

conflict_test : compatible (params "small") (params "large") ≡ false
unfolding deep_equal size covered value_eq Params.lookup string_dec
conflict_test = refl

lookup-dependency_keys_test :
    lookup "main/dependency/a" (Instances.append_data second first).dependency_keys
    ≡ or_else
        (lookup "main/dependency/a" second.dependency_keys)
        (lookup "main/dependency/a" first.dependency_keys)
unfolding has
lookup-dependency_keys_test = lookup-dependency_keys "main/dependency/a" second first (refl, tt)

lookup-append_data_example :
    lookup "k" (append_data (("k", second) ∷ []) (("k", first) ∷ []))
    ≡ combined (lookup "k" (("k", second) ∷ [])) (lookup "k" (("k", first) ∷ []))
unfolding has
lookup-append_data_example =
    lookup-append_data "k" (("k", second) ∷ []) (("k", first) ∷ []) (refl, tt)

abbrev needs_db : Dependency
needs_db = record { metadata = meta "a"; user = "alice"; contract = "db"; labels = [] }

abbrev resolution : PolicyResolution
resolution = ("s", instance_of "root" "main/dependency/a" end) ∷ ("c", first) ∷ []

resolved_test : (get_dependency_resolution needs_db resolution).resolved ≡ true
unfolding get_dependency_resolution key_for_storable string_dec lookup is_service get_key search
    visit
resolved_test = refl

resolved-get_dependency_resolution_example :
    (get_dependency_resolution needs_db resolution).resolved ≡ (
      no_error (key_for_storable (dependency needs_db)) resolution
      && some_service (key_for_storable (dependency needs_db)) resolution)
resolved-get_dependency_resolution_example = resolved-get_dependency_resolution needs_db resolution

-- A policy with all that the keys of `resolution` name.
abbrev dev : Context
dev = record {
  name = "dev";
  criteria = none;
  change_labels = none;
  allocation = record { service = "postgres"; keys = [] };
}

abbrev pod : ServiceComponent
pod = record {
  name = "pod";
  criteria = none;
  contract = "";
  code = some (record { type = "helm"; params = end });
  discovery = end;
  dependencies = [];
}

abbrev policy : Policy
policy = record {
  namespace =
      (
        "main",
        record (new_policy_namespace "main") {
          contracts =
              ("db", record { metadata = meta "db"; change_labels = none; contexts = dev ∷ [] })
              ∷ [];
          services =
              (
                "postgres",
                record { metadata = meta "postgres"; labels = []; components = pod ∷ [] },
              )
              ∷ [];
          clusters =
              (
                "west",
                record {
                  metadata = meta "west";
                  type = "kubernetes";
                  labels = [];
                  config = str "";
                },
              )
              ∷ [];
        },
      )
      ∷ [];
  acl_resolver = none;
}

validate_test : validate policy resolution ≡ ok tt
unfolding validate validate_errors validate_keys validate_contract validate_service validate_cluster
    has_context has_component find_object get_object get_by_parts get_in_namespace
    Namespaces.get_object find_kind stored split get_components_map put_components lookup insert
    string_dec get_key
validate_test = refl

validate_without_component_test :
    validate policy (("k", new_component_instance (cik "cache")) ∷ [])
    ≡ err (component_in_use (get_key (cik "cache")))
unfolding validate validate_errors validate_keys validate_contract validate_service validate_cluster
    has_context has_component find_object get_object get_by_parts get_in_namespace
    Namespaces.get_object find_kind stored split get_components_map put_components lookup insert
    string_dec get_key
validate_without_component_test = refl

validate_iff_example :
    (validate policy resolution ≡ ok tt → IsValidResolution policy resolution)
    × (IsValidResolution policy resolution → validate policy resolution ≡ ok tt)
validate_iff_example = validate_iff policy resolution
