-- ===== src/Engine/Resolver.antt =====
-- pkg/engine/resolve/policy_resolver.go: the resolution of all dependencies of a policy. The
-- recursion over contracts takes fuel; Engine/Resolver/Cycles says how much is enough.
pub mod Paths
pub mod Cycles
pub mod Invariant
pub mod Keyed
pub mod Recorded
pub mod Criteria
use aptomi.Base.{
  ℕ, zero, suc, ◌+◌, String, Bool, true, false, Option, none, some, List, [], ◌∷◌, ◌++◌, ◌==◌,
  if◌then◌else◌,
}
use aptomi.Base.Lists.{contains}
use aptomi.Base.Result.{Result, ok, err, ◌>>=◌}
use aptomi.Util.Params
use aptomi.Util.Params.{Params, end, nested}
use aptomi.Util.Params.Process.{get_nested_map}
use aptomi.Lang.Components.{sorted_topologically}
use aptomi.Lang.Labels.{Labels, new_label_set, add_labels}
use aptomi.Lang.Objects.{ServiceComponent, Dependency, User}
use aptomi.Lang.Policy.{Policy}
use aptomi.Engine.Keys.{ComponentInstanceKey, get_key}
use aptomi.Engine.Resolution.{
  PolicyResolution, append_data, record_labels, record_resolved, store_edge,
}
use aptomi.Engine.Nodes.{
  External, ResolveError, service_cycle_detected, sorting_components, processing_params,
  out_of_fuel, Node, Resolved, Progress, map_error, resolve_service, create_component_key,
  component_matches, calculate_and_store_code_params, calculate_and_store_discovery_params,
}

-- How the loop over the components of a service ends.
pub data Visited : Type 0 where
  all_visited : Progress → Visited
  -- `return err` after a failed criteria, where err is nil.
  returned_early : Progress → Visited

-- The labels start as those of the dependency, with those of the user put on top.
unfoldable pub start_labels : Dependency → Option User → Labels
start_labels d none = new_label_set d.labels
start_labels d (some user) = add_labels (new_label_set d.labels) user.labels

module _ {E : Type 0} (external : External E) (policy : Policy) where
  -- newResolutionNode and initResolutionNode
  unfoldable pub init_resolution_node : Dependency → Node
  init_resolution_node d =
      let user = external.load_user_by_name d.user in
      record {
        depth = 0;
        dependency = d;
        user = user;
        namespace = d.metadata.namespace;
        contract_name = d.contract;
        labels = start_labels d user;
        arrival_key = none;
        path = [];
      }

  -- createChildNode, without the discovery tree; `path` is that of the parent with its service key.
  unfoldable pub create_child_node : Resolved → ServiceComponent → ComponentInstanceKey → Node
  create_child_node r component cik = record {
    depth = r.node.depth + 1;
    dependency = r.node.dependency;
    user = r.node.user;
    namespace = r.node.namespace;
    contract_name = component.contract;
    labels = new_label_set r.node.labels;
    arrival_key = some cik;
    path = r.node.path ++ get_key r.service_key ∷ [];
  }

  -- The child writes to its part of the discovery tree, which is shared with the parent.
  unfoldable pub resolve_child :
      (Node → Progress → Result (ResolveError E) Progress)
      → Resolved
      → ServiceComponent
      → ComponentInstanceKey
      → Progress
      → Result (ResolveError E) Progress
  resolve_child resolve r component cik st =
      map_error processing_params (get_nested_map component.name st.discovery) >>= λ m.
      resolve (create_child_node r component cik) (record st { discovery = m }) >>= λ st'.
      ok (record st' {
        discovery = Params.insert component.name (nested st'.discovery) st.discovery;
      })

  -- The code or the contract of a component.
  unfoldable pub resolve_body :
      (Node → Progress → Result (ResolveError E) Progress)
      → Resolved
      → ServiceComponent
      → ComponentInstanceKey
      → Progress
      → Result (ResolveError E) Progress
  resolve_body resolve r component cik st = elim component.code [
    | some code ↦ calculate_and_store_code_params external policy r cik code st
    | none ↦ if component.contract == "" then ok st else resolve_child resolve r component cik st
  ]

  -- The entry that a component gets before its parameters are evaluated.
  unfoldable pub enter_component :
      Resolved → ServiceComponent → ComponentInstanceKey → Progress → Progress
  enter_component r component cik st = record {
    resolution =
        record_labels cik r.node.labels (store_edge (some r.service_key) (some cik) st.resolution);
    discovery = Params.insert component.name (nested end) st.discovery;
  }

  -- RecordResolved for an instance of the node.
  abbrev pub mark_resolved : Resolved → ComponentInstanceKey → Progress → Progress
  mark_resolved r cik st = record st {
    resolution = record_resolved cik r.node.dependency r.node.depth r.rule_result st.resolution;
  }

  -- The body of the loop over components, for a component whose criteria hold.
  unfoldable pub resolve_component :
      (Node → Progress → Result (ResolveError E) Progress)
      → Resolved
      → ServiceComponent
      → Progress
      → Result (ResolveError E) Progress
  resolve_component resolve r component st =
      create_component_key external policy r.contract r.context r.allocation_keys r.service
        r.node.labels (some component)
      >>= λ cik.
          calculate_and_store_discovery_params external policy r component cik
            (enter_component r component cik st)
          >>= resolve_body resolve r component cik
          >>= λ st'. ok (mark_resolved r cik st')

  unfoldable pub resolve_components :
      (Node → Progress → Result (ResolveError E) Progress)
      → Resolved
      → List ServiceComponent
      → Progress
      → Result (ResolveError E) Visited
  resolve_components resolve r [] st = ok (all_visited st)
  resolve_components resolve r (component ∷ rest) st =
      elim (component_matches external policy r component) [
        | err _ ↦ ok (returned_early st)
        | ok false ↦ resolve_components resolve r rest st
        | ok true ↦ resolve_component resolve r component st >>= resolve_components resolve r rest
      ]

  -- What follows the loop.
  unfoldable pub finish_service : Resolved → Visited → Progress
  finish_service r (all_visited st) = mark_resolved r r.service_key st
  finish_service r (returned_early st) = st

  -- What is stored for the service before its components.
  unfoldable pub enter_service : Resolved → Progress → Progress
  enter_service r st = record st {
    resolution =
        store_edge r.node.arrival_key (some r.service_key)
          (record_labels r.service_key r.node.labels st.resolution);
  }

  -- resolveNode from the sort of the components on.
  unfoldable pub resolve_service_components :
      (Node → Progress → Result (ResolveError E) Progress)
      → Resolved
      → Progress
      → Result (ResolveError E) Progress
  resolve_service_components resolve r st =
      map_error sorting_components (sorted_topologically r.service) >>= λ components.
      resolve_components resolve r components (enter_service r st) >>= λ v. ok (finish_service r v)

  unfoldable pub resolve_node : ℕ → Node → Progress → Result (ResolveError E) Progress
  resolve_node zero node st = err out_of_fuel
  resolve_node (suc fuel) node st = resolve_service external policy node >>= λ r.
      elim (contains node.path (get_key r.service_key)) [
        | true ↦ err (service_cycle_detected (get_key r.service_key))
        | false ↦ resolve_service_components (resolve_node fuel) r st
      ]

  -- resolveDependency: the resolution of the node, which an error discards.
  unfoldable pub resolve_dependency : ℕ → Dependency → Result (ResolveError E) PolicyResolution
  resolve_dependency fuel d =
      resolve_node fuel (init_resolution_node d) (record { resolution = []; discovery = end })
      >>= λ st. ok st.resolution

  -- combineData
  unfoldable pub combine_data :
      Result (ResolveError E) PolicyResolution → PolicyResolution → PolicyResolution
  combine_data (ok r) resolution = append_data r resolution
  combine_data (err _) resolution = resolution

  -- ResolveAllDependencies, with the dependencies in the order in which their goroutines get to
  -- combine their data.
  unfoldable pub resolve_all_dependencies :
      ℕ → List Dependency → PolicyResolution → PolicyResolution
  unfolding combine_data
  resolve_all_dependencies fuel [] resolution = resolution
  resolve_all_dependencies fuel (d ∷ rest) resolution =
      resolve_all_dependencies fuel rest (combine_data (resolve_dependency fuel d) resolution)
