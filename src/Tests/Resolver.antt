-- ===== src/Tests/Resolver.antt =====
-- pkg/engine/resolve/policy_resolver.go and pkg/util/nestedmap.go: runs, and the theorems at
-- concrete inputs.
use aptomi.Tests.Sites.{
  text_of, world, component, helm, broken, code_component, loop_component, failing_component, pages,
  policy_of, wish, site_of, start_of,
}
use aptomi.Util.Params
use aptomi.Lang.Namespaces
use aptomi.Base.{
  String, true, false, ◌≡◌, ◌≢◌, refl, ap, sym, subst, ◌∙◌, Option, none, some, List, [], ◌∷◌, ◌==◌,
  string_dec, arith, inl, inr,
}
use aptomi.Base.Lists.{contains, In}
use aptomi.Base.Result.{Result, ok, err, ◌>>=◌, ok_injective}
use aptomi.Util.Params.{deep_equal, covered, value_eq, str, int, nested, Params, end, field, size}
use aptomi.Util.Params.Process.{mode_evaluate, process_fields, process_parameter_tree}
use aptomi.Util.Params.Process.Reference.{plain_fields, map_fields, process_parameter_tree-map}
use aptomi.Lang.Criteria.{Criteria, matches}
use aptomi.Lang.Labels.{add_labels, value, new_label_set}
use aptomi.Lang.Namespaces.{new_policy_namespace, find_kind, stored}
use aptomi.Lang.Objects.{Code, ServiceComponent}
use aptomi.Lang.Policy.{get_cached_acl_resolver, get_in_namespace, get_object}
use aptomi.Engine.Keys.{new_component_instance_key, get_key}
use aptomi.Engine.Instances
use aptomi.Engine.Instances.{
  put_all, put_edges, append_code, append_params, new_component_instance, ComponentInstance,
  combine_params, add_code_params, add_discovery_params,
}
use aptomi.Engine.Resolution.{
  record_resolved, append_data, append_instance, PolicyResolution, get_dependency_resolution,
  get_component_instance_entry, record_code_params, record_discovery_params, record_labels,
  store_edge,
}
use aptomi.Engine.Resolution.{key_for_storable}
use aptomi.Engine.Resolution.Clean.{IsClean}
use aptomi.Engine.Nodes.{
  Resolved, Node, out_of_fuel, service_cycle_detected, map_error, check_user_exists, get_contract,
  match_context, check_service, get_matched_service, resolve_keys, suffix_for, create_component_key,
  resolve_service, component_matches, evaluate_params, calculate_and_store_code_params, announce,
  calculate_and_store_discovery_params,
}
use aptomi.Engine.Resolver.{
  combine_data, finish_service, resolve_child, create_child_node, resolve_all_dependencies,
  start_labels, init_resolution_node, resolve_body, enter_component, resolve_component,
  resolve_components, enter_service, resolve_service_components, resolve_node, resolve_dependency,
}
use aptomi.Engine.Resolver.Cycles.{
  Met, at_start, at_child, KeysIn, resolve_dependency-ne-out_of_fuel,
}
use aptomi.Engine.Resolver.Keyed.{resolve_dependency-IsClean, resolve_all_dependencies-keyed}
use aptomi.Engine.Resolver.Recorded.{resolved-resolve_dependency, is_ok, AllEvaluate}
use aptomi.Engine.Resolver.Criteria.{resolve_dependency-FailsAfter, FailsAfter}
use aptomi.Base.Dict.{lookup, insert}
use aptomi.Base.Text.{split, split_two}
use aptomi.Lang.Acl.{
  is_set, apply_actions, new_acl_resolver, select_role, compute_role_map, get_user_role_map,
  get_user_privileges, can_consume,
}
use aptomi.Lang.Roles.{get_object_privileges}
use aptomi.Lang.Rules.{
  sort_rules, process_rules_list, process_rules_within_namespace, process_rules,
}
use aptomi.Lang.Targets.{new_target, get_cluster}
use aptomi.Lang.Components.{
  visit_dependencies, paint, finish, dfs_component_sort, sort_from, sorted_topologically,
}

found_test :
    (c : ServiceComponent) → resolve_service world (policy_of c) (start_of c) ≡ ok (site_of c)
unfolding string_dec lookup insert split split_two Params.lookup Params.insert size process_fields
    process_parameter_tree is_set apply_actions new_acl_resolver select_role compute_role_map
    get_user_role_map get_user_privileges can_consume get_object_privileges sort_rules
    process_rules_list process_rules_within_namespace process_rules matches value new_label_set
    find_kind stored Namespaces.get_object get_cached_acl_resolver get_in_namespace get_object
    new_target get_cluster visit_dependencies paint finish dfs_component_sort sort_from
    sorted_topologically new_component_instance_key get_key combine_params add_code_params
    add_discovery_params get_component_instance_entry record_code_params record_discovery_params
    record_labels store_edge map_error check_user_exists get_contract match_context check_service
    get_matched_service resolve_keys suffix_for create_component_key resolve_service
    component_matches evaluate_params calculate_and_store_code_params announce
    calculate_and_store_discovery_params start_labels init_resolution_node resolve_body
    enter_component resolve_component resolve_components enter_service resolve_service_components
    resolve_node resolve_dependency
found_test c = refl

abbrev value_of : {E A : Type 0} → A → Result E A → A
value_of a (ok b) = b
value_of a (err _) = a

abbrev resolution_of : ServiceComponent → PolicyResolution
resolution_of c = value_of [] (resolve_dependency world (policy_of c) 1 wish)

resolve_test :
    resolve_dependency world (policy_of code_component) 1 wish ≡ ok (resolution_of code_component)
unfolding string_dec lookup insert split split_two Params.lookup Params.insert size process_fields
    process_parameter_tree is_set apply_actions new_acl_resolver select_role compute_role_map
    get_user_role_map get_user_privileges can_consume get_object_privileges sort_rules
    process_rules_list process_rules_within_namespace process_rules matches value new_label_set
    find_kind stored Namespaces.get_object get_cached_acl_resolver get_in_namespace get_object
    new_target get_cluster visit_dependencies paint finish dfs_component_sort sort_from
    sorted_topologically new_component_instance_key get_key combine_params add_code_params
    add_discovery_params get_component_instance_entry record_code_params record_discovery_params
    record_labels store_edge map_error check_user_exists get_contract match_context check_service
    get_matched_service resolve_keys suffix_for create_component_key resolve_service
    component_matches evaluate_params calculate_and_store_code_params announce
    calculate_and_store_discovery_params start_labels init_resolution_node resolve_body
    enter_component resolve_component resolve_components enter_service resolve_service_components
    resolve_node resolve_dependency
resolve_test = refl

cycle_test :
    resolve_dependency world (policy_of loop_component) 2 wish
    ≡ err (service_cycle_detected "main#west#default#main#site#prod#k#root")
unfolding string_dec lookup insert split split_two Params.lookup Params.insert size process_fields
    process_parameter_tree is_set apply_actions new_acl_resolver select_role compute_role_map
    get_user_role_map get_user_privileges can_consume get_object_privileges sort_rules
    process_rules_list process_rules_within_namespace process_rules matches value new_label_set
    find_kind stored Namespaces.get_object get_cached_acl_resolver get_in_namespace get_object
    new_target get_cluster visit_dependencies paint finish dfs_component_sort sort_from
    sorted_topologically new_component_instance_key get_key combine_params add_code_params
    add_discovery_params get_component_instance_entry record_code_params record_discovery_params
    record_labels store_edge map_error check_user_exists get_contract match_context check_service
    get_matched_service resolve_keys suffix_for create_component_key resolve_service
    component_matches evaluate_params calculate_and_store_code_params announce
    calculate_and_store_discovery_params start_labels init_resolution_node resolve_body
    enter_component resolve_component resolve_components enter_service resolve_service_components
    resolve_node resolve_dependency resolve_child create_child_node
cycle_test = refl

sorted_test :
    (criteria : Option Criteria) (contract : String) (code : Option Code)
    → sorted_topologically (pages (component criteria contract code))
      ≡ ok (component criteria contract code ∷ [])
unfolding string_dec lookup insert visit_dependencies paint finish dfs_component_sort sort_from
    sorted_topologically
sorted_test criteria contract code = refl

abbrev text_tree : Params
text_tree =
    field "image" (str "nginx") (field "sizes" (nested (field "small" (int false 1) end)) end)

process_parameter_tree-map_test :
    process_parameter_tree text_of (λ _. ok tt) mode_evaluate (some text_tree)
    ≡ (map_fields text_of (λ _. ok tt) text_tree >>= λ p. ok (some p))
unfolding plain_fields string_dec Params.lookup
process_parameter_tree-map_test = process_parameter_tree-map text_of (λ _. ok tt) text_tree refl

abbrev or_new : Option ComponentInstance → ComponentInstance
or_new none = new_component_instance (site_of code_component).service_key
or_new (some i) = i

abbrev web_instance : ComponentInstance
web_instance =
    or_new (lookup "main#west#default#main#site#prod#k#web" (resolution_of code_component))

instance_test :
    lookup "main#west#default#main#site#prod#k#web" (resolution_of code_component)
    ≡ some web_instance
unfolding string_dec lookup insert split split_two Params.lookup Params.insert size process_fields
    process_parameter_tree is_set apply_actions new_acl_resolver select_role compute_role_map
    get_user_role_map get_user_privileges can_consume get_object_privileges sort_rules
    process_rules_list process_rules_within_namespace process_rules matches value new_label_set
    find_kind stored Namespaces.get_object get_cached_acl_resolver get_in_namespace get_object
    new_target get_cluster visit_dependencies paint finish dfs_component_sort sort_from
    sorted_topologically new_component_instance_key get_key combine_params add_code_params
    add_discovery_params get_component_instance_entry record_code_params record_discovery_params
    record_labels store_edge map_error check_user_exists get_contract match_context check_service
    get_matched_service resolve_keys suffix_for create_component_key resolve_service
    component_matches evaluate_params calculate_and_store_code_params announce
    calculate_and_store_discovery_params start_labels init_resolution_node resolve_body
    enter_component resolve_component resolve_components enter_service resolve_service_components
    resolve_node resolve_dependency finish_service record_resolved
instance_test = refl

resolve_dependency-IsClean_test : IsClean "main#west#default#main#site#prod#k#web" web_instance
resolve_dependency-IsClean_test =
    resolve_dependency-IsClean world (policy_of code_component) 1 wish
      (resolution_of code_component) "main#west#default#main#site#prod#k#web" web_instance
      resolve_test instance_test

all_instance_test :
    lookup "main#west#default#main#site#prod#k#web"
      (resolve_all_dependencies world (policy_of code_component) 1 (wish ∷ wish ∷ []) [])
    ≡ some web_instance
unfolding string_dec lookup insert split split_two Params.lookup Params.insert size process_fields
    process_parameter_tree is_set apply_actions new_acl_resolver select_role compute_role_map
    get_user_role_map get_user_privileges can_consume get_object_privileges sort_rules
    process_rules_list process_rules_within_namespace process_rules matches value new_label_set
    find_kind stored Namespaces.get_object get_cached_acl_resolver get_in_namespace get_object
    new_target get_cluster visit_dependencies paint finish dfs_component_sort sort_from
    sorted_topologically new_component_instance_key get_key combine_params add_code_params
    add_discovery_params get_component_instance_entry record_code_params record_discovery_params
    record_labels store_edge map_error check_user_exists get_contract match_context check_service
    get_matched_service resolve_keys suffix_for create_component_key resolve_service
    component_matches evaluate_params calculate_and_store_code_params announce
    calculate_and_store_discovery_params start_labels init_resolution_node resolve_body
    enter_component resolve_component resolve_components enter_service resolve_service_components
    resolve_node resolve_dependency finish_service record_resolved resolve_all_dependencies
    combine_data append_data append_instance Instances.append_data put_all put_edges append_code
    append_params deep_equal add_labels covered value_eq key_for_storable
all_instance_test = refl

resolve_all_dependencies-keyed_example :
    get_key web_instance.key ≡ "main#west#default#main#site#prod#k#web"
resolve_all_dependencies-keyed_example =
    resolve_all_dependencies-keyed world (policy_of code_component) 1 (wish ∷ wish ∷ [])
      "main#west#default#main#site#prod#k#web" web_instance all_instance_test

evaluates :
    AllEvaluate world (policy_of code_component) (site_of code_component) (code_component ∷ [])
unfolding component_matches matches
evaluates c (inl same) =
    subst
      (λ c.
        is_ok (component_matches world (policy_of code_component) (site_of code_component) c)
        ≡ true)
      (sym same) refl
evaluates c (inr other) = absurd other

resolved-resolve_dependency_example :
    (get_dependency_resolution wish (resolution_of code_component)).resolved ≡ true
resolved-resolve_dependency_example =
    resolved-resolve_dependency world (policy_of code_component) 1 wish (site_of code_component)
      (code_component ∷ []) (resolution_of code_component) (found_test code_component)
      (sorted_test none "" helm) evaluates resolve_test

fails_test :
    FailsAfter world
      (policy_of failing_component)
      (site_of failing_component)
      []
      failing_component
      "broken"
unfolding component_matches matches string_dec
fails_test = record { no_match = λ c other. absurd other; fails = refl }

resolve_dependency-FailsAfter_example :
    (resolution : PolicyResolution) × (resolve_dependency world (policy_of failing_component) 1 wish
      ≡ ok resolution)
    × ((get_dependency_resolution wish resolution).resolved ≡ false)
resolve_dependency-FailsAfter_example =
    resolve_dependency-FailsAfter world (policy_of failing_component) 0 wish
      (site_of failing_component) [] failing_component [] "broken" (found_test failing_component)
      (sorted_test broken "" helm) fails_test

site_test :
    (node : Node) (r : Resolved)
    → node ≡ start_of code_component
    → resolve_service world (policy_of code_component) node ≡ ok r
    → site_of code_component ≡ r
site_test node r same found = ok_injective (site_of code_component) r (
    sym (found_test code_component)
    ∙ ap (resolve_service world (policy_of code_component)) (sym same)
    ∙ found)

no_contract_test :
    (r : Resolved) (components : List ServiceComponent) (c : ServiceComponent)
    → site_of code_component ≡ r
    → sorted_topologically r.service ≡ ok components
    → In c components
    → (c.contract == "") ≡ true
unfolding string_dec
no_contract_test r components c same sorted inside =
    let path = subst (λ r'. sorted_topologically r'.service ≡ ok components) (sym same) sorted in
    let all =
      ok_injective (code_component ∷ []) components (sym (sorted_test none "" helm) ∙ path) in
    elim (subst (In c) (sym all) inside) [
      | inl is_code ↦ subst (λ x. (x.contract == "") ≡ true) (sym is_code) refl
      | inr other ↦ absurd other
    ]

-- The resolution meets only its first node.
Met-test :
    (node : Node) → Met world (policy_of code_component) wish node → node ≡ start_of code_component
Met-test node at_start = refl
Met-test node (at_child parent r components c cik met found sorted inside is_contract) = absurd (
    ground (
      arith,
      is_contract,
      no_contract_test r components c (site_test parent r (Met-test parent met) found) sorted
          inside,
    ))

keys_test :
    KeysIn world (policy_of code_component) ("main#west#default#main#site#prod#k#root" ∷ []) wish
unfolding get_key string_dec
keys_test node r met found =
    subst
      (λ r'.
        contains ("main#west#default#main#site#prod#k#root" ∷ []) (get_key r'.service_key) ≡ true)
      (site_test node r (Met-test node met) found) refl

resolve_dependency-ne-out_of_fuel_example :
    resolve_dependency world (policy_of code_component) 2 wish ≢ err out_of_fuel
resolve_dependency-ne-out_of_fuel_example =
    resolve_dependency-ne-out_of_fuel world (policy_of code_component)
      ("main#west#default#main#site#prod#k#root" ∷ []) wish keys_test
