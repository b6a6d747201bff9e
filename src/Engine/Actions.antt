-- ===== src/Engine/Actions.antt =====
-- pkg/engine/apply/action/component: the actions on component instances, and pkg/engine/actual:
-- state_updater_noop.go, which keeps the actual state. A code plugin is the function `invoke`: its
-- result for an operation on an instance, `none` when the operation succeeds. A panic counts as the
-- error that Apply makes of it. The created instance is the desired one; what AttachDependency
-- writes to both is what the desired one has.
use aptomi.Base.{ℕ, String, Bool, false, if◌then◌else◌, Option, none, some, List, [], ◌∷◌}
use aptomi.Base.Dict.{lookup, insert, erase}
use aptomi.Base.Result.{Result, ok, err, ◌>>=◌, ◌>>◌}
use aptomi.Base.Text.{join}
use aptomi.Util.Params.{Params}
use aptomi.Lang.Components.{get_components_map}
use aptomi.Lang.Objects.{Object, cluster, Cluster, Code, ServiceComponent}
use aptomi.Lang.Policy.{Policy}
use aptomi.Engine.Keys.{get_key}
use aptomi.Engine.Instances.{ComponentInstance}
use aptomi.Engine.Resolution.{PolicyResolution, find_object, service_of}

pub data Action : Type 0 where
  create : (key : String) (params : Params) → Action
  update : (key : String) (before params : Params) → Action
  delete : (key : String) (params : Params) → Action
  attach : (key dependency : String) (depth : ℕ) → Action
  detach : (key dependency : String) → Action

abbrev pub metadata_name : String → List String → String
metadata_name kind keys = join (kind ∷ join keys "/" ∷ []) "/"

unfoldable pub action_name : Action → String
action_name (create key _) = metadata_name "action-component-create" (key ∷ [])
action_name (update key _ _) = metadata_name "action-component-update" (key ∷ [])
action_name (delete key _) = metadata_name "action-component-delete" (key ∷ [])
action_name (attach key d _) = metadata_name "action-component-dependency-attach" (key ∷ d ∷ [])
action_name (detach key d) = metadata_name "action-component-dependency-detach" (key ∷ d ∷ [])

pub data Operation : Type 0 where
  creating updating destroying : Operation

pub data ActionError (E : Type 0) : Type 0 where
  not_in_desired_state : (key : String) → ActionError E
  not_in_actual_state : (key : String) → ActionError E
  no_service : (key : String) → ActionError E
  no_cluster : (key : String) → ActionError E
  plugin_failed : E → ActionError E

pub record ActionContext (E : Type 0) : Type 0 where
  pub desired_policy : Policy
  pub desired_state : PolicyResolution
  pub invoke : Operation → Cluster → Code → ComponentInstance → Option E
  pub now : ℕ
  -- Whether the map CalculatedCodeParams is not nil; a nil map and an empty one are the same Params.
  pub has_params : ComponentInstance → Bool

abbrev cluster_of : Option Object → Option Cluster
cluster_of (some (cluster c)) = some c
cluster_of _ = none

module _ {E : Type 0} (context : ActionContext E) where
  abbrev plugin_result : Option E → Result (ActionError E) (Unit {0})
  plugin_result none = ok tt
  plugin_result (some e) = err (plugin_failed e)

  unfoldable pub deploy_code :
      Operation → ComponentInstance → Option Code → Result (ActionError E) (Unit {0})
  deploy_code op i none = ok tt
  deploy_code op i (some code) =
      elim (cluster_of
        (find_object "cluster" i.key.cluster_name i.key.cluster_namespace context.desired_policy)) [
          | none ↦ err (no_cluster (get_key i.key))
          | some c ↦ plugin_result (context.invoke op c code i)
        ]

  -- The code of the component that the instance stands for, if it is a component with code.
  abbrev code_of : Option ServiceComponent → Option Code
  code_of none = none
  code_of (some c) = c.code

  -- processDeployment, once the instance has been found.
  unfoldable pub process_deployment :
      Operation → ComponentInstance → Result (ActionError E) (Unit {0})
  process_deployment op i =
      elim (service_of
        (find_object "service" i.key.service_name i.key.namespace context.desired_policy)) [
          | none ↦ err (no_service (get_key i.key))
          | some s ↦ deploy_code op i (code_of (lookup i.key.component_name (get_components_map s)))
        ]

  -- UpdateComponentInstance
  unfoldable pub update_component_instance :
      String
      → (ComponentInstance → ComponentInstance)
      → PolicyResolution
      → Result (ActionError E) PolicyResolution
  update_component_instance key change actual = elim (lookup key actual) [
    | none ↦ err (not_in_actual_state key)
    | some i ↦ ok (insert key (change (record i { updated_at = context.now })) actual)
  ]

  -- CreateComponentInstance
  unfoldable pub create_component_instance : ComponentInstance → PolicyResolution → PolicyResolution
  create_component_instance i actual =
      insert (get_key i.key) (record i { created_at = context.now; updated_at = context.now })
        actual

  -- The Apply methods: an error leaves the actual state as it is.
  unfoldable pub apply_action : Action → PolicyResolution → Result (ActionError E) PolicyResolution
  apply_action (create key _) actual = elim (lookup key context.desired_state) [
    | none ↦ err (not_in_desired_state key)
    | some i ↦ process_deployment creating i >> ok (create_component_instance i actual)
  ]
  apply_action (update key _ _) actual = elim (lookup key context.desired_state) [
    | none ↦ err (not_in_desired_state key)
    | some i ↦
        process_deployment updating i
        >> (if context.has_params i
            then update_component_instance (get_key i.key)
                (λ o. record o {
                  endpoints_up_to_date = false;
                  calculated_code_params = i.calculated_code_params;
                })
                actual
            else ok actual)
  ]
  apply_action (delete key _) actual = elim (lookup key actual) [
    | none ↦ err (not_in_actual_state key)
    | some i ↦ process_deployment destroying i >> ok (erase (get_key i.key) actual)
  ]
  apply_action (attach key d depth) actual =
      update_component_instance key
        (λ o. record o { dependency_keys = insert d depth o.dependency_keys }) actual
  apply_action (detach key d) actual =
      update_component_instance key (λ o. record o { dependency_keys = erase d o.dependency_keys })
        actual

  -- The actions of a node, one after the other.
  unfoldable pub run : List Action → PolicyResolution → Result (ActionError E) PolicyResolution
  run [] actual = ok actual
  run (a ∷ rest) actual = apply_action a actual >>= run rest
