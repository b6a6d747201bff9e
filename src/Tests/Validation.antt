-- ===== src/Tests/Validation.antt =====
-- pkg/lang/validation.go: runs, and the theorem on services at a concrete service.
use aptomi.Base.{String, true, false, ◌≡◌, refl, none, some, List, [], ◌∷◌, string_dec}
use aptomi.Base.Dict.{lookup, insert, has}
use aptomi.Base.Text.{split, trim_space}
use aptomi.Util.Params.{end}
use aptomi.Lang.Components.{
  sorted_topologically, sort_from, dfs_component_sort, visit_dependencies, get_components_map,
  paint, finish, component_cycle,
}
use aptomi.Lang.Objects.{Service, ServiceComponent}
use aptomi.Lang.Policy.{new_policy}
use aptomi.Lang.Validation.{
  is_identifier, is_name_char, all_name_chars, count_chars, validate_acl_role_action_map,
  validate_role_namespaces, validate_service, check_contracts, check_unique, check_sort,
  check_names, check_dependencies, not_sorted, not_unique,
}

abbrev with_code : String → List String → ServiceComponent
with_code name dependencies = record {
  name = name;
  criteria = none;
  contract = "";
  code = some (record { type = "helm"; params = end });
  discovery = end;
  dependencies = dependencies;
}

abbrev service_of : List ServiceComponent → Service
service_of components = record {
  metadata = record { namespace = "main"; name = "web"; generation = 0; deleted = false };
  labels = [];
  components = components;
}

abbrev web : Service
web = service_of (with_code "app" ("db" ∷ []) ∷ with_code "db" [] ∷ [])

web_test : validate_service new_policy web ≡ []
unfolding validate_service check_contracts string_dec check_unique has insert check_sort
    sorted_topologically sort_from lookup dfs_component_sort visit_dependencies get_components_map
    paint finish check_dependencies check_names
web_test = refl

cycle_test :
    validate_service new_policy (service_of (with_code "app" ("app" ∷ []) ∷ []))
    ≡ not_sorted (component_cycle "web" "app") ∷ []
unfolding validate_service check_contracts string_dec check_unique has check_sort
    sorted_topologically sort_from lookup dfs_component_sort visit_dependencies get_components_map
    insert paint check_dependencies check_names
cycle_test = refl

twice_test :
    validate_service new_policy (service_of (with_code "app" [] ∷ with_code "app" [] ∷ []))
    ≡ not_unique "app" ∷ []
unfolding validate_service check_contracts string_dec check_unique has insert
twice_test = refl

identifier_test : (is_identifier "main-2" ≡ true) × (is_identifier "2main" ≡ false)
unfolding is_identifier all_name_chars is_name_char count_chars
identifier_test = (refl, refl)

roles_test :
    (validate_acl_role_action_map (("namespace-admin", "main, dev,*") ∷ []) ≡ true)
    × (validate_acl_role_action_map (("owner", "main") ∷ []) ≡ false)
unfolding validate_acl_role_action_map has string_dec validate_role_namespaces split is_identifier
    trim_space all_name_chars is_name_char count_chars
roles_test = (refl, refl)
