-- ===== src/Engine/Resolution.antt =====
-- pkg/engine/resolve/policy_resolution.go and dependency_resolution.go: the component instances that
-- policy resolution makes, by their keys. The map is the one field of PolicyResolution.
pub mod Combining
pub mod Dependencies
pub mod Named
pub mod Valid
pub mod Clean
pub mod Kept
pub mod Marked
use Prim.Native.String.{◌++◌}
use aptomi.Base.{
  ℕ, String, Bool, true, false, not, ◌&&◌, Option, none, some, List, [], ◌∷◌, ◌==◌, nat_eq,
  if◌then◌else◌,
}
use aptomi.Base.Dict.{Dict, lookup, insert}
use aptomi.Base.Result.{Result, ok, err, ◌>>◌}
use aptomi.Util.Params.{Params}
use aptomi.Lang.Labels.{Labels}
use aptomi.Lang.Objects.{
  Object, service, contract, cluster, Context, Service, dependency, Dependency, get_namespace,
  get_name, kind,
}
use aptomi.Lang.Components.{get_components_map}
use aptomi.Lang.Policy.{Policy, get_object}
use aptomi.Lang.Rules.{RuleActionResult}
use aptomi.Engine.Keys.{ComponentInstanceKey, get_key, is_service, root_name}
use aptomi.Engine.Instances.{
  ComponentInstance, InstanceError, new_component_instance, add_dependency, add_rule_information,
  add_code_params, add_discovery_params, add_instance_labels, add_edge_out,
}
use aptomi.Engine.Instances

abbrev pub PolicyResolution : Type 0
PolicyResolution = Dict ComponentInstance

-- runtime.KeyForStorable; no object has an empty namespace or kind.
unfoldable pub key_for_storable : Object → String
key_for_storable o =
    let key = get_namespace o ++ ("/" ++ kind o) in
    if get_name o == "" then key else key ++ ("/" ++ get_name o)

-- GetComponentInstanceEntry, the instance that the key has or a new one.
unfoldable pub get_component_instance_entry :
    ComponentInstanceKey → PolicyResolution → ComponentInstance
get_component_instance_entry cik resolution = elim (lookup (get_key cik) resolution) [
  | none ↦ new_component_instance cik
  | some i ↦ i
]

-- A change of that entry through its pointer.
abbrev pub change_entry :
    (ComponentInstance → ComponentInstance)
    → ComponentInstanceKey
    → PolicyResolution
    → PolicyResolution
change_entry f cik resolution =
    insert (get_key cik) (f (get_component_instance_entry cik resolution)) resolution

-- A change that may fail: the entry is there also after an error.
abbrev pub try_change :
    (ComponentInstance → Result InstanceError ComponentInstance)
    → ComponentInstanceKey
    → PolicyResolution
    → PolicyResolution × Option InstanceError
try_change f cik resolution =
    let entry = get_component_instance_entry cik resolution in
    elim (f entry) [
      | ok i ↦ (insert (get_key cik) i resolution, none)
      | err e ↦ (insert (get_key cik) entry resolution, some e)
    ]

unfoldable pub record_resolved :
    ComponentInstanceKey → Dependency → ℕ → RuleActionResult → PolicyResolution → PolicyResolution
record_resolved cik d depth result =
    change_entry
      (λ i. add_rule_information result (add_dependency (key_for_storable (dependency d)) depth i))
      cik

-- IsCode is set also if the parameters are in conflict.
unfoldable pub record_code_params :
    ComponentInstanceKey → Params → PolicyResolution → PolicyResolution × Option InstanceError
record_code_params cik params resolution =
    try_change (add_code_params params) cik
      (change_entry (λ i. record i { is_code = true }) cik resolution)

unfoldable pub record_discovery_params :
    ComponentInstanceKey → Params → PolicyResolution → PolicyResolution × Option InstanceError
record_discovery_params cik params = try_change (add_discovery_params params) cik

unfoldable pub record_labels : ComponentInstanceKey → Labels → PolicyResolution → PolicyResolution
record_labels cik labels = change_entry (add_instance_labels labels) cik

unfoldable pub store_edge :
    Option ComponentInstanceKey → Option ComponentInstanceKey → PolicyResolution → PolicyResolution
store_edge none _ resolution = resolution
store_edge (some src) none resolution = resolution
store_edge (some src) (some dst) resolution =
    change_entry (add_edge_out (get_key dst)) src resolution

-- The body of the loop in AppendData.
unfoldable pub append_instance : String → ComponentInstance → PolicyResolution → PolicyResolution
append_instance key instance resolution = elim (lookup key resolution) [
  | none ↦ insert key instance resolution
  | some i ↦ insert key (Instances.append_data instance i) resolution
]

-- AppendData: the data of `ops`, the first argument, is added.
unfoldable pub append_data : PolicyResolution → PolicyResolution → PolicyResolution
append_data [] resolution = resolution
append_data ((key, i) ∷ ops) resolution = append_data ops (append_instance key i resolution)

pub record DependencyResolution : Type 0 where
  pub resolved : Bool
  pub component_instance_key : String

-- dError and dComponentKey
pub record Search : Type 0 where
  pub error : Option InstanceError
  pub component_key : String

-- What an instance adds that the dependency keeps at the given depth.
unfoldable pub visit : ℕ → ComponentInstance → Search → Search
visit depth i s = record {
  error = elim s.error [ none ↦ i.error | some e ↦ some e ];
  component_key = if nat_eq depth 0 && is_service i.key then get_key i.key else s.component_key;
}

unfoldable pub search : String → PolicyResolution → Search → Search
search d_key [] s = s
search d_key ((_, i) ∷ rest) s = elim (lookup d_key i.dependency_keys) [
  | none ↦ search d_key rest s
  | some depth ↦ search d_key rest (visit depth i s)
]

abbrev pub is_none {ℓ} : {A : Type ℓ} → Option A → Bool
is_none none = true
is_none (some _) = false

unfoldable pub get_dependency_resolution : Dependency → PolicyResolution → DependencyResolution
get_dependency_resolution d resolution =
    let s =
      search (key_for_storable (dependency d)) resolution
        (record { error = none; component_key = "" }) in
    record {
      resolved = is_none s.error && not (s.component_key == "");
      component_instance_key = s.component_key;
    }

pub data ValidationError : Type 0 where
  component_error : InstanceError → ValidationError
  contract_in_use : (key : String) → ValidationError
  context_in_use : (key : String) → ValidationError
  service_in_use : (key : String) → ValidationError
  component_in_use : (key : String) → ValidationError
  cluster_in_use : (key : String) → ValidationError

unfoldable pub has_context : String → List Context → Bool
has_context name [] = false
has_context name (c ∷ rest) =
    let others = has_context name rest in if c.name == name then true else others

abbrev contexts_of : Option Object → Option (List Context)
contexts_of (some (contract c)) = some c.contexts
contexts_of _ = none

abbrev pub service_of : Option Object → Option Service
service_of (some (service s)) = some s
service_of _ = none

-- GetObject, where an error counts as a missing object. No error of GetObject comes from marshalling.
unfoldable pub find_object : String → String → String → Policy → Option Object
find_object k name ns policy = elim (get_object {E = Unit {0}} k name ns policy) [
  | ok o ↦ o
  | err _ ↦ none
]

-- What the test of a component's service says; "root" is no component.
unfoldable pub has_component : String → Service → Bool
has_component name s =
    if name == root_name then true else not (is_none (lookup name (get_components_map s)))

unfoldable pub validate_cluster : Policy → ComponentInstanceKey → Result ValidationError (Unit {0})
validate_cluster policy k = elim (find_object "cluster" k.cluster_name k.cluster_namespace policy) [
  | none ↦ err (cluster_in_use (get_key k))
  | some _ ↦ ok tt
]

unfoldable pub validate_service : Policy → ComponentInstanceKey → Result ValidationError (Unit {0})
validate_service policy k =
    elim (service_of (find_object "service" k.service_name k.namespace policy)) [
      | none ↦ err (service_in_use (get_key k))
      | some s ↦
          if has_component k.component_name s then ok tt else err (component_in_use (get_key k))
    ]

unfoldable pub validate_contract : Policy → ComponentInstanceKey → Result ValidationError (Unit {0})
validate_contract policy k =
    elim (contexts_of (find_object "contract" k.contract_name k.namespace policy)) [
      | none ↦ err (contract_in_use (get_key k))
      | some contexts ↦
          if has_context k.context_name contexts then ok tt else err (context_in_use (get_key k))
    ]

unfoldable pub validate_errors : PolicyResolution → Result ValidationError (Unit {0})
validate_errors [] = ok tt
validate_errors ((_, i) ∷ rest) = elim i.error [
  | some e ↦ err (component_error e)
  | none ↦ validate_errors rest
]

unfoldable pub validate_keys : Policy → PolicyResolution → Result ValidationError (Unit {0})
validate_keys policy [] = ok tt
validate_keys policy ((_, i) ∷ rest) =
    validate_contract policy i.key
    >> validate_service policy i.key
    >> validate_cluster policy i.key
    >> validate_keys policy rest

-- Validate
unfoldable pub validate : Policy → PolicyResolution → Result ValidationError (Unit {0})
validate policy resolution = validate_errors resolution >> validate_keys policy resolution
