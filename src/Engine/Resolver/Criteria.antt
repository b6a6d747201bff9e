-- ===== src/Engine/Resolver/Criteria.antt =====
-- pkg/engine/resolve/policy_resolver.go: what happens when the criteria of a component cannot be
-- evaluated.
use aptomi.Base.{ℕ, suc, false, ◌≡◌, refl, List, [], ◌∷◌, ◌++◌, arith, inl, inr}
use aptomi.Base.Dict.{lookup, insert}
use aptomi.Base.Lists.{In}
use aptomi.Base.Result.{Result, ok, err}
use aptomi.Lang.Components.{sorted_topologically}
use aptomi.Lang.Labels.{Labels}
use aptomi.Lang.Objects.{ServiceComponent, Dependency}
use aptomi.Lang.Policy.{Policy}
use aptomi.Engine.Keys.{ComponentInstanceKey}
use aptomi.Engine.Resolution.{
  PolicyResolution, get_component_instance_entry, search, get_dependency_resolution, record_labels,
  store_edge,
}
use aptomi.Engine.Nodes.{
  External, ResolveError, Node, Resolved, Progress, component_matches, map_error, resolve_service,
}
use aptomi.Engine.Nodes.Found.{resolve_service-IsFound}
use aptomi.Engine.Resolver.{
  resolve_components, enter_service, returned_early, resolve_service_components, resolve_node,
  resolve_dependency, init_resolution_node, finish_service,
}
use aptomi.Engine.Resolver.Recorded.{fresh_node, empty_progress}

module _ {E : Type 0} (external : External E) (policy : Policy) where
  -- The criteria of a component fail to evaluate, after components whose criteria do not hold.
  pub record FailsAfter (r : Resolved) (skipped : List ServiceComponent)
      (component : ServiceComponent) (e : E) : Type 0 where
    pub no_match :
        (c : ServiceComponent) → In c skipped → component_matches external policy r c ≡ ok false
    pub fails : component_matches external policy r component ≡ err e

  resolve_components-FailsAfter :
      (resolve : Node → Progress → Result (ResolveError E) Progress) (r : Resolved)
      (skipped : List ServiceComponent) (component : ServiceComponent)
      (rest : List ServiceComponent) (e : E) (st : Progress)
      → FailsAfter r skipped component e
      → resolve_components external policy resolve r (skipped ++ component ∷ rest) st
        ≡ ok (returned_early st)
  unfolding resolve_components
  resolve_components-FailsAfter resolve r [] component rest e st h = ground (arith, h.fails)
  resolve_components-FailsAfter resolve r (c ∷ skipped) component rest e st h = ground (
    arith,
    h.no_match c (inl refl),
    resolve_components-FailsAfter resolve r skipped component rest e st
        (record { no_match = λ d inside. h.no_match d (inr inside); fails = h.fails }),
  )

  service_components-FailsAfter :
      (resolve : Node → Progress → Result (ResolveError E) Progress) (r : Resolved)
      (skipped : List ServiceComponent) (component : ServiceComponent)
      (rest : List ServiceComponent) (e : E) (st : Progress)
      → sorted_topologically r.service ≡ ok (skipped ++ component ∷ rest)
      → FailsAfter r skipped component e
      → resolve_service_components external policy resolve r st
        ≡ ok (enter_service external policy r st)
  unfolding resolve_service_components map_error finish_service
  service_components-FailsAfter resolve r skipped component rest e st sorted h = ground (
    arith,
    sorted,
    resolve_components-FailsAfter resolve r skipped component rest e
        (enter_service external policy r st) h,
  )

  -- No dependency keeps the entry that a service gets in an empty resolution.
  first_entry-unresolved :
      (d : Dependency) (key : ComponentInstanceKey) (labels : Labels)
      → (get_dependency_resolution d (record_labels key labels [])).resolved ≡ false
  unfolding record_labels insert get_component_instance_entry get_dependency_resolution search
      lookup
  first_entry-unresolved d key labels = ground arith

  -- If the criteria of a component of the dependency's service fail to evaluate, after components
  -- whose criteria do not hold, then the resolution of the dependency ends without an error, and the
  -- dependency does not count as resolved in the result.
  pub resolve_dependency-FailsAfter :
      (fuel : ℕ) (d : Dependency) (r : Resolved) (skipped : List ServiceComponent)
      (component : ServiceComponent) (rest : List ServiceComponent) (e : E)
      → resolve_service external policy (init_resolution_node external policy d) ≡ ok r
      → sorted_topologically r.service ≡ ok (skipped ++ component ∷ rest)
      → FailsAfter r skipped component e
      → (resolution : PolicyResolution) × (resolve_dependency external policy (suc fuel) d
          ≡ ok resolution)
        × ((get_dependency_resolution d resolution).resolved ≡ false)
  unfolding resolve_dependency init_resolution_node enter_service store_edge
  resolve_dependency-FailsAfter fuel d r skipped component rest e found sorted h =
      let node = init_resolution_node external policy d in
      let is_found = (resolve_service-IsFound external policy node).at r found in
      (
        (enter_service external policy r empty_progress).resolution,
        rw
            (
              fresh_node external policy fuel node r empty_progress found refl,
              service_components-FailsAfter (resolve_node external policy fuel) r skipped component
                  rest e empty_progress sorted h,
            )
            refl,
        rw (is_found.same_arrival) (first_entry-unresolved d r.service_key r.node.labels),
      )
