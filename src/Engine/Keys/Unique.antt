-- ===== src/Engine/Keys/Unique.antt =====
-- Which component instances share a key.
use Prim.Native.Char.{Char, code}
use aptomi.Base.{String, ◌≡◌, true, false, Option, none, some, List, ◌==◌}
use aptomi.Base.Text.{lacks}
use aptomi.Base.Text.Separators.{cut_first, cut_last}
use aptomi.Lang.Objects.{Cluster, Contract, Context, Service, ServiceComponent}
use aptomi.Engine.Keys.{
  ComponentInstanceKey, root_name, new_component_instance_key, get_parent_service_key, get_key,
}

abbrev hash : Char
hash = "#"

-- No part but the allocation keys has the separator in it.
pub record IsPlain (k : ComponentInstanceKey) : Type 0 where
  pub cluster_namespace : lacks (code hash) k.cluster_namespace ≡ true
  pub cluster_name : lacks (code hash) k.cluster_name ≡ true
  pub target_suffix : lacks (code hash) k.target_suffix ≡ true
  pub namespace : lacks (code hash) k.namespace ≡ true
  pub contract_name : lacks (code hash) k.contract_name ≡ true
  pub component_name : lacks (code hash) k.component_name ≡ true

-- The two instances agree in every part of the key.
pub record SameInstance (j k : ComponentInstanceKey) : Type 0 where
  pub cluster_namespace : j.cluster_namespace ≡ k.cluster_namespace
  pub cluster_name : j.cluster_name ≡ k.cluster_name
  pub target_suffix : j.target_suffix ≡ k.target_suffix
  pub namespace : j.namespace ≡ k.namespace
  pub contract_name : j.contract_name ≡ k.contract_name
  pub context_name_with_keys : j.context_name_with_keys ≡ k.context_name_with_keys
  pub component_name : j.component_name ≡ k.component_name

-- Two instances whose cluster, target, namespace, contract and component have no "#" in their names
-- have one text key only if they agree in each of these and in the context with its allocation
-- keys, whatever characters the allocation keys have.
pub get_key-injective :
    (j k : ComponentInstanceKey) → IsPlain j → IsPlain k → get_key j ≡ get_key k → SameInstance j k
unfolding get_key
get_key-injective j k p q e =
    let (e₁, r₁) = cut_first hash _ _ _ _ p.cluster_namespace q.cluster_namespace e in
    let (e₂, r₂) = cut_first hash _ _ _ _ p.cluster_name q.cluster_name r₁ in
    let (e₃, r₃) = cut_first hash _ _ _ _ p.target_suffix q.target_suffix r₂ in
    let (e₄, r₄) = cut_first hash _ _ _ _ p.namespace q.namespace r₃ in
    let (e₅, r₅) = cut_first hash _ _ _ _ p.contract_name q.contract_name r₄ in
    let (e₆, e₇) = cut_last hash _ _ _ _ p.component_name q.component_name r₅ in
    record {
      cluster_namespace = e₁;
      cluster_name = e₂;
      target_suffix = e₃;
      namespace = e₄;
      contract_name = e₅;
      context_name_with_keys = e₆;
      component_name = e₇;
    }

-- A component whose name is "root" gets the very key of its service: nothing tells the instance of
-- the service from that of the component.
pub root_component-eq-service :
    (cluster : Option Cluster) (suffix : String) (contract : Option Contract)
    (context : Option Context) (keys : List String) (service : Option Service)
    (component : ServiceComponent)
    → component.name ≡ root_name
    → new_component_instance_key cluster suffix contract context keys service (some component)
      ≡ new_component_instance_key cluster suffix contract context keys service none
unfolding new_component_instance_key
root_component-eq-service cluster suffix contract context keys service component e = rw e

-- The parent of a component's key loses the name of the service.
pub get_parent_service_key-service_name :
    (k : ComponentInstanceKey)
    → (k.component_name == root_name) ≡ false
    → (get_parent_service_key k).service_name ≡ ""
unfolding get_parent_service_key
get_parent_service_key-service_name k h = rw h
