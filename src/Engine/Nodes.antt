-- ===== src/Engine/Nodes.antt =====
-- pkg/engine/resolve: policy_resolver_node.go and policy_resolver_node_contextual_data.go, the steps
-- of the resolution of one dependency at one contract. What stands outside is the record External.
-- A panic counts as the error that resolveDependency makes of it; the event log is left out.
pub mod Fuel
pub mod Found
use Prim.Native.String.{◌++◌}
use aptomi.Base.{
  ℕ, ◌+◌, String, Bool, true, false, not, Option, none, some, List, [], ◌∷◌, ◌==◌, if◌then◌else◌,
}
use aptomi.Base.Dict.{Dict, lookup}
use aptomi.Base.Result.{Result, ok, err, ◌>>=◌}
use aptomi.Util.Names.{escape_name}
use aptomi.Util.Params
use aptomi.Util.Params.{Value, str, int, nested, Params, end, field}
use aptomi.Util.Params.Process.{TreeError, mode_evaluate, get_nested_map, process_parameter_tree}
use aptomi.Lang.Acl.{AclError, can_consume}
use aptomi.Lang.Components.{SortError}
use aptomi.Lang.Criteria.{matches}
use aptomi.Lang.Labels.{Labels, label_target, value}
use aptomi.Lang.Namespaces.{PolicyError}
use aptomi.Lang.Objects.{
  Metadata, Object, contract, service, dependency, Contract, Context, Service, ServiceComponent,
  Code, Cluster, Rule, Dependency, User, system_ns,
}
use aptomi.Lang.Policy.{Policy, get_object, get_cached_acl_resolver}
use aptomi.Lang.Rules.{RuleActionResult, RuleError, process_rules, transform_labels}
use aptomi.Lang.Targets.{Target, new_target, get_cluster}
use aptomi.Engine.Keys.{
  ComponentInstanceKey, new_component_instance_key, get_key, get_parent_service_key, is_component,
}
use aptomi.Engine.Instances.{InstanceError}
use aptomi.Engine.Resolution.{
  PolicyResolution, key_for_storable, record_labels, record_code_params, record_discovery_params,
}

-- What proxyUser, proxyService and proxyDependency show of an object.
pub record UserProxy : Type 0 where
  pub name : String
  pub labels : Labels
  pub secrets : Dict String

pub record ServiceProxy : Type 0 where
  pub metadata : Metadata
  pub labels : Labels

pub record DependencyProxy : Type 0 where
  pub metadata : Metadata
  pub id : String

-- The data of the expression engine besides the labels.
pub data Structs : Type 0 where
  no_structs : Structs
  rule_structs : ServiceProxy → DependencyProxy → Structs

-- The data of the template engine, for allocation keys and for parameters.
pub data TemplateData : Type 0 where
  allocation_data : UserProxy → DependencyProxy → Labels → TemplateData
  params_data : UserProxy → Labels → (discovery : Params) → (target : String) → TemplateData

pub record External (E : Type 0) : Type 0 where
  pub load_user_by_name : String → Option User
  pub load_secrets_by_user_name : String → Dict String
  pub evaluate : Labels → Structs → String → Result E Bool
  pub evaluate_template : TemplateData → String → Result E String
  -- The default namespace in a Kubernetes cluster's config, if the config can be parsed.
  pub default_namespace : Cluster → Option String
  -- The hashes in GetDeployName and HashFnv.
  pub hash_of_key : String → String
  pub hash_fnv : String → ℕ

pub data ResolveError (E : Type 0) : Type 0 where
  user_does_not_exist : ResolveError E
  no_contract : ResolveError E
  testing_context : (context : String) → E → ResolveError E
  context_not_matched : ResolveError E
  no_service : ResolveError E
  not_in_same_namespace : ResolveError E
  not_allowed_to_consume : ResolveError E
  resolving_allocation_keys : E → ResolveError E
  processing_rules : RuleError E → ResolveError E
  target_not_set : ResolveError E
  cluster_lookup : (cluster : String) → PolicyError E → ResolveError E
  service_cycle_detected : (key : String) → ResolveError E
  sorting_components : SortError → ResolveError E
  processing_params : TreeError E → ResolveError E
  conflicting_params : InstanceError → ResolveError E
  out_of_fuel : ResolveError E

-- What a node has when its resolution starts.
pub record Node : Type 0 where
  pub depth : ℕ
  pub dependency : Dependency
  pub user : Option User
  pub namespace : String
  pub contract_name : String
  pub labels : Labels
  pub arrival_key : Option ComponentInstanceKey
  pub path : List String

-- What has been found when the components of the service are visited; the labels have been changed
-- by contract, context and rules.
pub record Resolved : Type 0 where
  pub node : Node
  pub user : User
  pub contract : Contract
  pub context : Context
  pub service : Service
  pub allocation_keys : List String
  pub rule_result : RuleActionResult
  pub service_key : ComponentInstanceKey

-- What the nodes of one dependency write: the resolution, and the part of the discovery tree.
pub record Progress : Type 0 where
  pub resolution : PolicyResolution
  pub discovery : Params

-- An error under another name.
unfoldable pub map_error : {E F A : Type 0} → (E → F) → Result E A → Result F A
map_error f (ok a) = ok a
map_error f (err e) = err (f e)

abbrev pub proxy_service : Service → ServiceProxy
proxy_service s = record { metadata = s.metadata; labels = s.labels }

abbrev pub proxy_dependency : Dependency → DependencyProxy
proxy_dependency d = record { metadata = d.metadata; id = key_for_storable (dependency d) }

-- proxyTarget and the assertions on the kinds of objects.
abbrev as_contract : {E : Type 0} → Option Object → Result (ResolveError E) Contract
as_contract (some (contract c)) = ok c
as_contract _ = err no_contract

abbrev as_service : {E : Type 0} → Option Object → Result (ResolveError E) Service
as_service (some (service s)) = ok s
as_service _ = err no_service

abbrev pub rules_of : String → Policy → Option (Dict Rule)
rules_of ns policy = elim (lookup ns policy.namespace) [ none ↦ none | some p ↦ some p.rules ]

unfoldable pub get_deploy_name : (String → String) → ComponentInstanceKey → String
get_deploy_name hash cik = "a-" ++ hash (get_key cik)

module _ {E : Type 0} (external : External E) (policy : Policy) where
  abbrev pub proxy_user : User → UserProxy
  proxy_user user = record {
    name = user.name;
    labels = user.labels;
    secrets = external.load_secrets_by_user_name user.name;
  }

  abbrev pub deploy_name : ComponentInstanceKey → String
  deploy_name cik = escape_name (get_deploy_name external.hash_of_key cik)

  -- proxyDiscovery
  unfoldable pub proxy_discovery : Params → ComponentInstanceKey → Params
  proxy_discovery discovery cik =
      let own =
        Params.insert "InstanceId" (int false (external.hash_fnv (get_key cik)))
          (Params.insert "Instance" (str (deploy_name cik)) discovery) in
      let parent = get_parent_service_key cik in
      if is_component cik
      then Params.insert "Service"
          (nested (
            field "Instance" (str (deploy_name parent))
              (field "InstanceId" (int false (external.hash_fnv (get_key parent))) end)))
          own
      else own

  unfoldable pub check_user_exists : Node → Result (ResolveError E) User
  check_user_exists node = elim node.user [ none ↦ err user_does_not_exist | some u ↦ ok u ]

  -- getContract; an error of GetObject makes it panic, as a missing contract does.
  unfoldable pub get_contract : Node → Result (ResolveError E) Contract
  get_contract node =
      elim (get_object {E = E} "contract" node.contract_name node.namespace policy) [
        | ok o ↦ as_contract o
        | err _ ↦ err no_contract
      ]

  unfoldable pub match_context : Labels → List Context → Result (ResolveError E) Context
  match_context labels [] = err context_not_matched
  match_context labels (c ∷ rest) =
      elim (matches (external.evaluate labels no_structs) c.criteria) [
        | err e ↦ err (testing_context c.name e)
        | ok true ↦ ok c
        | ok false ↦ match_context labels rest
      ]

  -- The checks of getMatchedService. The cache of the ACL resolver changes no result (Lang/Acl/Cache).
  unfoldable pub check_service : User → Contract → Service → Result (ResolveError E) Service
  check_service user c s =
      if s.metadata.namespace == c.metadata.namespace
      then elim (can_consume (λ l. external.evaluate l no_structs)
          (get_cached_acl_resolver policy).1 user s).1 [
            | ok true ↦ ok s
            | ok false ↦ err not_allowed_to_consume
            | err _ ↦ err not_allowed_to_consume
          ]
      else err not_in_same_namespace

  unfoldable pub get_matched_service : User → Contract → Context → Result (ResolveError E) Service
  get_matched_service user c context =
      elim (get_object {E = E} "service" context.allocation.service c.metadata.namespace policy) [
        | err _ ↦ err no_service
        | ok o ↦ as_service o >>= check_service user c
      ]

  -- ResolveKeys
  unfoldable pub resolve_keys : TemplateData → List String → Result E (List String)
  resolve_keys data_of [] = ok []
  resolve_keys data_of (key ∷ rest) = external.evaluate_template data_of key >>= λ k.
      resolve_keys data_of rest >>= λ ks. ok (k ∷ ks)

  -- A Kubernetes cluster has a suffix in any case.
  unfoldable pub suffix_for : Cluster → String → String
  suffix_for cluster suffix =
      if suffix == ""
      then if cluster.type == "kubernetes"
        then elim (external.default_namespace cluster) [
          | none ↦ "default"
          | some ns ↦ if ns == "" then "default" else ns
        ]
        else suffix
      else suffix

  unfoldable pub create_component_key :
      Contract
      → Context
      → List String
      → Service
      → Labels
      → Option ServiceComponent
      → Result (ResolveError E) ComponentInstanceKey
  create_component_key c context keys s labels component =
      let target = new_target (value label_target labels) in
      if value label_target labels == ""
      then err target_not_set
      else map_error (cluster_lookup target.cluster_name)
          (get_cluster target policy c.metadata.namespace)
        >>= λ cluster. ok (
            new_component_instance_key (some cluster) (suffix_for cluster target.suffix) (some c)
              (some context) keys (some s) component)

  -- resolveNode up to the creation of the service key.
  unfoldable pub resolve_service : Node → Result (ResolveError E) Resolved
  resolve_service node = do
    user ← check_user_exists node
    c ← get_contract node
    let labels₁ = (transform_labels node.labels c.change_labels).0
    context ← match_context labels₁ c.contexts
    s ← get_matched_service user c context
    let labels₂ = (transform_labels labels₁ context.change_labels).0
    keys ← map_error resolving_allocation_keys (
        resolve_keys (allocation_data (proxy_user user) (proxy_dependency node.dependency) labels₂)
          context.allocation.keys)
    rule_result ← map_error processing_rules (
        process_rules
          (λ l.
            external.evaluate l (rule_structs (proxy_service s) (proxy_dependency node.dependency)))
          (rules_of c.metadata.namespace policy) (rules_of system_ns policy) labels₂)
    service_key ← create_component_key c context keys s rule_result.labels none
    ok (record {
      node = record node { namespace = c.metadata.namespace; labels = rule_result.labels };
      user = user;
      contract = c;
      context = context;
      service = s;
      allocation_keys = keys;
      rule_result = rule_result;
      service_key = service_key;
    })

  unfoldable pub component_matches : Resolved → ServiceComponent → Result E Bool
  component_matches r component =
      matches (external.evaluate r.node.labels no_structs) component.criteria

  -- The contextual data for the templates of a component's parameters.
  abbrev pub component_data : Resolved → ComponentInstanceKey → Params → TemplateData
  component_data r cik discovery =
      params_data (proxy_user r.user) r.node.labels (proxy_discovery discovery cik)
        cik.target_suffix

  -- ProcessParameterTree with ModeEvaluate; a nil tree is an empty one.
  unfoldable pub evaluate_params :
      Resolved → ComponentInstanceKey → Params → Params → Result (ResolveError E) Params
  evaluate_params r cik discovery tree =
      map_error processing_params (
        process_parameter_tree (external.evaluate_template (component_data r cik discovery))
          (λ _. ok tt) mode_evaluate (some tree))
      >>= λ p. ok (elim p [ none ↦ end | some q ↦ q ])

  abbrev pub stored_params :
      Progress → PolicyResolution × Option InstanceError → Result (ResolveError E) Progress
  stored_params st (resolution, none) = ok (record st { resolution = resolution })
  stored_params st (resolution, some e) = err (conflicting_params e)

  unfoldable pub calculate_and_store_code_params :
      Resolved → ComponentInstanceKey → Code → Progress → Result (ResolveError E) Progress
  calculate_and_store_code_params r cik code st =
      evaluate_params r cik st.discovery code.params >>= λ p.
      stored_params st (record_code_params cik p st.resolution)

  unfoldable pub put_params : Params → Params → Params
  put_params end to = to
  put_params (field k v rest) to = put_params rest (Params.insert k v to)

  -- What the component announces in the discovery tree.
  unfoldable pub announce :
      String → ComponentInstanceKey → Params → Progress → Result (ResolveError E) Progress
  announce name cik params st =
      map_error processing_params (get_nested_map name st.discovery) >>= λ m. ok (record st {
        discovery =
            Params.insert name
              (nested (put_params params (Params.insert "instance" (str (deploy_name cik)) m)))
              st.discovery;
      })

  unfoldable pub calculate_and_store_discovery_params :
      Resolved
      → ServiceComponent
      → ComponentInstanceKey
      → Progress
      → Result (ResolveError E) Progress
  calculate_and_store_discovery_params r component cik st =
      evaluate_params r cik st.discovery component.discovery >>= λ p.
      stored_params st (record_discovery_params cik p st.resolution)
      >>= announce component.name cik p
