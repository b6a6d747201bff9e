-- ===== src/Engine/Keys.antt =====
-- pkg/engine/resolve/component_key.go: the keys of component instances, and pkg/runtime/key.go. The
-- field `key` only caches the text. GetDeployName needs a hash of the key and is a parameter where
-- it is used.
pub mod Unique
use Prim.Native.String.{◌++◌}
use aptomi.Base.{String, Bool, not, Option, none, some, List, [], ◌∷◌, ◌==◌, if◌then◌else◌}
use aptomi.Base.Text.{join}
use aptomi.Lang.Objects.{Object, Cluster, Contract, Context, Service, ServiceComponent}

-- componentInstanceKeySeparator, componentUnresolvedName and componentRootName
abbrev pub key_separator : String
key_separator = "#"

abbrev pub unresolved_name : String
unresolved_name = "unknown"

abbrev pub root_name : String
root_name = "root"

pub record ComponentInstanceKey : Type 0 where
  pub cluster_namespace : String
  pub cluster_name : String
  pub target_suffix : String
  pub namespace : String
  pub contract_name : String
  pub context_name : String
  pub keys_resolved : String
  pub context_name_with_keys : String
  pub service_name : String
  pub component_name : String

-- The helpers get…Unsafe: a placeholder stands for what has not been resolved.
abbrev or_default : {A : Type 0} → String → (A → String) → Option A → String
or_default d f none = d
or_default d f (some a) = f a

abbrev pub with_keys : String → String → String
with_keys context keys = if keys == "" then context else join (context ∷ keys ∷ []) key_separator

unfoldable pub new_component_instance_key :
    Option Cluster
    → String
    → Option Contract
    → Option Context
    → List String
    → Option Service
    → Option ServiceComponent
    → ComponentInstanceKey
new_component_instance_key cluster target_suffix contract context allocation_keys service
      component =
    let context_name = or_default unresolved_name (λ (c : Context). c.name) context in
    let keys_resolved = join allocation_keys key_separator in
    record {
      cluster_namespace =
          or_default unresolved_name (λ (c : Cluster). c.metadata.namespace) cluster;
      cluster_name = or_default unresolved_name (λ (c : Cluster). c.metadata.name) cluster;
      target_suffix = if target_suffix == "" then unresolved_name else target_suffix;
      namespace = or_default unresolved_name (λ (c : Contract). c.metadata.namespace) contract;
      contract_name = or_default unresolved_name (λ (c : Contract). c.metadata.name) contract;
      context_name = context_name;
      keys_resolved = keys_resolved;
      context_name_with_keys = with_keys context_name keys_resolved;
      service_name = or_default unresolved_name (λ (s : Service). s.metadata.name) service;
      component_name = or_default root_name (λ (c : ServiceComponent). c.name) component;
    }

-- The copy has no service name.
unfoldable pub make_copy : ComponentInstanceKey → ComponentInstanceKey
make_copy cik = record cik { service_name = "" }

unfoldable pub is_service : ComponentInstanceKey → Bool
is_service cik = cik.component_name == root_name

unfoldable pub is_component : ComponentInstanceKey → Bool
is_component cik = not (cik.component_name == root_name)

unfoldable pub get_parent_service_key : ComponentInstanceKey → ComponentInstanceKey
unfolding make_copy
get_parent_service_key cik =
    if cik.component_name == root_name
    then cik
    else record (make_copy cik) { component_name = root_name }

unfoldable pub get_key : ComponentInstanceKey → String
get_key cik =
    join
      (cik.cluster_namespace ∷ cik.cluster_name ∷ cik.target_suffix ∷ cik.namespace
        ∷ cik.contract_name ∷ cik.context_name_with_keys ∷ cik.component_name ∷ [])
      key_separator
