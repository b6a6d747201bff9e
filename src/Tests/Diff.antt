-- ===== src/Tests/Diff.antt =====
-- pkg/engine/diff and pkg/engine/apply/action/component: runs, and the theorems at concrete inputs.
use aptomi.Base.{String, string_dec, true, false, ◌≡◌, ◌≢◌, refl, sym, ap, none, some, [], ◌∷◌}
use aptomi.Base.Dict.{lookup, insert, erase, has, keys}
use aptomi.Base.Lists.{contains}
use aptomi.Base.Result.{ok}
use aptomi.Base.Text.{split}
use aptomi.Util.Params
use aptomi.Util.Params.{Params, end, field, str, deep_equal, size, covered, value_eq}
use aptomi.Lang.Components.{get_components_map, put_components}
use aptomi.Lang.Objects.{Metadata, ServiceComponent, Service, Cluster}
use aptomi.Lang.Namespaces.{new_policy_namespace, find_kind, stored}
use aptomi.Lang.Namespaces
use aptomi.Lang.Policy.{Policy, get_object, get_by_parts, get_in_namespace}
use aptomi.Engine.Keys.{ComponentInstanceKey, get_key, get_parent_service_key}
use aptomi.Engine.Plan.{Plan, node, init, step_node, negative_degree, queued_twice, here}
use aptomi.Engine.Plan.Safety.{step_node_safe}
use aptomi.Engine.Diff.Built.{compare_and_produce_actions-IsGraph}
use aptomi.Engine.Instances.{ComponentInstance, new_component_instance}
use aptomi.Engine.Resolution.{PolicyResolution, find_object}
use aptomi.Engine.Actions.{
  Action, ActionContext, update, attach, detach, action_name, apply_action, run, process_deployment,
  deploy_code, update_component_instance,
}
use aptomi.Engine.Diff.{
  compare_and_produce_actions, own_actions, detaches, attaches, creates, needs_update,
  is_destructed, dependencies_of, build_actions, add_all, add_to_node, add_action, has_name,
  update_parent, get_action_graph_node, add_edges_of,
}
use aptomi.Engine.Diff.Convergence.{run-own_actions}
use aptomi.Engine.Diff.Leftover.{own_actions-detached}

abbrev meta : String → Metadata
meta name = record { namespace = "main"; name = name; generation = 1; deleted = false }

abbrev pod : ServiceComponent
pod = record {
  name = "pod";
  criteria = none;
  contract = "";
  code = some (record { type = "helm"; params = end });
  discovery = end;
  dependencies = [];
}

abbrev postgres : Service
postgres = record { metadata = meta "postgres"; labels = []; components = pod ∷ [] }

abbrev west : Cluster
west = record { metadata = meta "west"; type = "kubernetes"; labels = []; config = str "" }

abbrev policy : Policy
policy = record {
  namespace =
      (
        "main",
        record (new_policy_namespace "main") {
          services = ("postgres", postgres) ∷ [];
          clusters = ("west", west) ∷ [];
        },
      )
      ∷ [];
  acl_resolver = none;
}

abbrev cik : String → ComponentInstanceKey
cik component = record {
  cluster_namespace = "main";
  cluster_name = "west";
  target_suffix = "apps";
  namespace = "main";
  contract_name = "db";
  context_name = "dev";
  keys_resolved = "";
  context_name_with_keys = "dev";
  service_name = "postgres";
  component_name = component;
}

abbrev key : String
key = "main#west#apps#main#db#dev#pod"

abbrev instance_of : String → String → ComponentInstance
instance_of d v = record (new_component_instance (cik "pod")) {
  dependency_keys = (d, 1) ∷ [];
  is_code = true;
  calculated_code_params = field "size" (str v) end;
}

abbrev actual : PolicyResolution
actual = (key, instance_of "a" "small") ∷ []

abbrev desired : PolicyResolution
desired = (key, instance_of "b" "large") ∷ []

-- The cloud does all that it is asked to.
abbrev context : PolicyResolution → ActionContext String
context wanted = record {
  desired_policy = policy;
  desired_state = wanted;
  invoke = λ _ _ _ _. none;
  now = 9;
  has_params = λ _. true;
}

own_actions_test :
    own_actions key (lookup key actual) (lookup key desired)
    ≡ detach key "a"
      ∷ update key (field "size" (str "small") end) (field "size" (str "large") end)
      ∷ attach key "b" 1
      ∷ []
unfolding own_actions detaches attaches creates needs_update is_destructed lookup has string_dec
    deep_equal size covered value_eq Params.lookup
own_actions_test = refl

abbrev changed : ComponentInstance
changed = record (instance_of "b" "large") { updated_at = 9 }

run_test :
    run (context desired) (own_actions key (lookup key actual) (lookup key desired)) actual
    ≡ ok ((key, changed) ∷ [])
unfolding own_actions detaches attaches creates needs_update is_destructed lookup has string_dec
    deep_equal size covered value_eq Params.lookup run apply_action process_deployment deploy_code
    update_component_instance insert erase get_key find_object get_object get_by_parts
    get_in_namespace Namespaces.get_object find_kind stored split get_components_map put_components
run_test = refl

keyed :
    (d v : String) (i : ComponentInstance)
    → lookup key ((key, instance_of d v) ∷ []) ≡ some i
    → get_key i.key ≡ key
unfolding lookup string_dec get_key
keyed d v i e = ap (λ o. elim o [ none ↦ key | some x ↦ get_key x.key ]) (sym e)

run-own_actions_example :
    has "b" (dependencies_of (lookup key ((key, changed) ∷ [])))
    ≡ has "b" (dependencies_of (lookup key desired))
run-own_actions_example =
    run-own_actions (context desired) key actual ((key, changed) ∷ []) "b" (keyed "a" "small")
      (keyed "b" "large") run_test

abbrev detached : ComponentInstance
detached = record (instance_of "a" "small") { dependency_keys = []; updated_at = 9 }

own_actions-detached_example :
    (lookup key ((key, detached) ∷ []) ≢ none)
    × (own_actions key (lookup key ((key, detached) ∷ [])) (lookup key []) ≡ [])
unfolding lookup string_dec get_key detaches has run apply_action update_component_instance insert
    erase
own_actions-detached_example =
    own_actions-detached (context []) key (instance_of "a" "small") actual ((key, detached) ∷ [])
      refl refl refl refl

-- A parent service gets an update of its own.
parent_test :
    (node
      (compare_and_produce_actions actual desired (key ∷ []) (key ∷ []))
      "main#west#apps#main#db#dev#root").actions
    ≡ update "main#west#apps#main#db#dev#root" end end ∷ []
unfolding compare_and_produce_actions build_actions add_all add_to_node add_action has_name
    action_name update_parent get_action_graph_node add_edges_of own_actions detaches attaches
    creates needs_update is_destructed lookup has string_dec deep_equal size covered value_eq
    Params.lookup insert get_key get_parent_service_key
parent_test = refl

abbrev plan : Plan Action
plan = compare_and_produce_actions actual desired (key ∷ []) (key ∷ [])

has_key_test : contains (keys plan) key ≡ true
unfolding compare_and_produce_actions build_actions add_all add_to_node add_action has_name
    action_name update_parent get_action_graph_node add_edges_of own_actions detaches attaches
    creates needs_update is_destructed lookup has string_dec deep_equal size covered value_eq
    Params.lookup insert get_key get_parent_service_key keys
has_key_test = refl

-- The plan of the diff is one that is applied safely.
first_step_test :
    (step_node {E = String} plan key none (init plan) ≢ negative_degree)
    × (step_node {E = String} plan key none (init plan) ≢ queued_twice)
first_step_test =
    step_node_safe plan (compare_and_produce_actions-IsGraph actual desired (key ∷ []) (key ∷ []))
      key none here has_key_test
