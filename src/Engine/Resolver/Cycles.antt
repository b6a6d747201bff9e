-- ===== src/Engine/Resolver/Cycles.antt =====
-- pkg/engine/resolve/policy_resolver.go: the check for service cycles ends the recursion, as long as
-- the keys of services come from finitely many.
use aptomi.Base.{
  ℕ, zero, suc, ◌≤◌, ◌<◌, String, true, false, ◌≡◌, ◌≢◌, refl, some, List, [], ◌∷◌, ◌++◌, ◌==◌,
  arith, inl, inr, Bool-cases, Option-cases,
}
use aptomi.Base.Lists.{length, contains, In}
use aptomi.Base.Result.{Result, ok, err, Result-cases}
use aptomi.Lang.Components.{sorted_topologically}
use aptomi.Lang.Objects.{ServiceComponent, Dependency}
use aptomi.Lang.Policy.{Policy}
use aptomi.Engine.Keys.{ComponentInstanceKey, get_key}
use aptomi.Engine.Nodes.{
  External, ResolveError, out_of_fuel, Node, Resolved, Progress, resolve_service,
}
use aptomi.Engine.Nodes.{component_matches}
use aptomi.Engine.Nodes.Found.{resolve_service-IsFound}
use aptomi.Engine.Nodes.Fuel.{
  Fine, ok-Fine, bind-Fine, map_error-Fine, map_error-ok, create_component_key-Fine,
  resolve_service-Fine, code_params-Fine, discovery_params-Fine,
}
use aptomi.Engine.Resolver.Paths.{missing, missing-append, missing-le-length}
use aptomi.Engine.Resolver.{
  init_resolution_node, create_child_node, resolve_child, resolve_body, resolve_component,
  resolve_components, resolve_service_components, resolve_node, resolve_dependency,
}

module _ {E : Type 0} (external : External E) (policy : Policy) where
  -- The nodes that the resolution of a dependency may come to.
  pub data Met (d : Dependency) : Node → Type 0 where
    at_start : Met d (init_resolution_node external policy d)
    at_child :
        (node : Node) (r : Resolved) (components : List ServiceComponent)
        (component : ServiceComponent) (cik : ComponentInstanceKey)
        → Met d node
        → resolve_service external policy node ≡ ok r
        → sorted_topologically r.service ≡ ok components
        → In component components
        → (component.contract == "") ≡ false
        → Met d (create_child_node external policy r component cik)

module _ {E : Type 0} (external : External E) (policy : Policy) (universe : List String)
    (d : Dependency) where
  -- The keys of the services that may be met stand in a list.
  abbrev pub KeysIn : Type 0
  KeysIn =
      (node : Node) (r : Resolved)
      → Met external policy d node
      → resolve_service external policy node ≡ ok r
      → contains universe (get_key r.service_key) ≡ true

  -- A recursive call that has enough fuel for paths with at most `n` keys missing.
  abbrev Enough : ℕ → (Node → Progress → Result (ResolveError E) Progress) → Type 0
  Enough n resolve =
      (node : Node) (st : Progress)
      → Met external policy d node
      → missing node.path universe ≤ n
      → Fine (resolve node st)

  -- The nodes of the given components are met, and few keys are missing on their paths.
  record Children (n : ℕ) (r : Resolved) (components : List ServiceComponent) : Type 0 where
    met :
        (component : ServiceComponent) (cik : ComponentInstanceKey)
        → In component components
        → (component.contract == "") ≡ false
        → Met external policy d (create_child_node external policy r component cik)
    few : missing (r.node.path ++ get_key r.service_key ∷ []) universe ≤ n

  resolve_child-Fine :
      (resolve : Node → Progress → Result (ResolveError E) Progress) (n : ℕ) (r : Resolved)
      (component : ServiceComponent) (cik : ComponentInstanceKey) (st : Progress)
      → Enough n resolve
      → Met external policy d (create_child_node external policy r component cik)
      → missing (r.node.path ++ get_key r.service_key ∷ []) universe ≤ n
      → Fine (resolve_child external policy resolve r component cik st)
  unfolding resolve_child create_child_node
  resolve_child-Fine resolve n r component cik st enough met few =
      bind-Fine _ _ (map_error-Fine _ _ (λ e h. ground (arith, h))) (λ m _.
        bind-Fine _ _ (enough (create_child_node external policy r component cik) _ met few)
          (λ st' _. ok-Fine _))

  resolve_body-Fine :
      (resolve : Node → Progress → Result (ResolveError E) Progress) (n : ℕ) (r : Resolved)
      (component : ServiceComponent) (cik : ComponentInstanceKey) (st : Progress)
      → Enough n resolve
      → ((cik : ComponentInstanceKey)
          → (component.contract == "") ≡ false
          → Met external policy d (create_child_node external policy r component cik))
      → missing (r.node.path ++ get_key r.service_key ∷ []) universe ≤ n
      → Fine (resolve_body external policy resolve r component cik st)
  unfolding resolve_body
  resolve_body-Fine resolve n r component cik st enough met few =
      elim (Option-cases component.code) [
        | inr (code, e) ↦ record {
          at = λ h. (code_params-Fine external policy r cik code st).at (ground (arith, h, e));
        }
        | inl e ↦ elim (Bool-cases (component.contract == "")) [
          | inl no_contract ↦ record { at = λ h. ground (arith, h, e, no_contract) }
          | inr other ↦ record {
            at = λ h.
                (resolve_child-Fine resolve n r component cik st enough (met cik other) few).at
                  (ground (arith, h, e, other));
          }
        ]
      ]

  resolve_component-Fine :
      (resolve : Node → Progress → Result (ResolveError E) Progress) (n : ℕ) (r : Resolved)
      (component : ServiceComponent) (st : Progress)
      → Enough n resolve
      → ((cik : ComponentInstanceKey)
          → (component.contract == "") ≡ false
          → Met external policy d (create_child_node external policy r component cik))
      → missing (r.node.path ++ get_key r.service_key ∷ []) universe ≤ n
      → Fine (resolve_component external policy resolve r component st)
  unfolding resolve_component
  resolve_component-Fine resolve n r component st enough met few =
      bind-Fine _ _
        (create_component_key-Fine external policy r.contract r.context r.allocation_keys r.service
          r.node.labels (some component))
        (λ cik _.
          bind-Fine _ _
            (bind-Fine _ _ (discovery_params-Fine external policy r component cik _)
              (λ st' _. resolve_body-Fine resolve n r component cik st' enough met few))
            (λ st' _. ok-Fine _))

  tail-Children :
      {n : ℕ} {r : Resolved} {component : ServiceComponent} {rest : List ServiceComponent}
      → Children n r (component ∷ rest)
      → Children n r rest
  tail-Children children = record {
    met = λ c cik inside. children.met c cik (inr inside);
    few = children.few;
  }

  resolve_components-Fine :
      (resolve : Node → Progress → Result (ResolveError E) Progress) (n : ℕ) (r : Resolved)
      (components : List ServiceComponent) (st : Progress)
      → Enough n resolve
      → Children n r components
      → Fine (resolve_components external policy resolve r components st)
  unfolding resolve_components
  resolve_components-Fine resolve n r [] st enough children = ok-Fine _
  resolve_components-Fine resolve n r (component ∷ rest) st enough children =
      elim (Result-cases (component_matches external policy r component)) [
        | inr (f, e) ↦ record { at = λ h. ground (arith, h, e) }
        | inl (false, e) ↦ record {
          at = λ h.
              (resolve_components-Fine resolve n r rest st enough (tail-Children children)).at
                (ground (arith, h, e));
        }
        | inl (true, e) ↦
            let step =
              bind-Fine (resolve_component external policy resolve r component st)
                (resolve_components external policy resolve r rest)
                (resolve_component-Fine resolve n r component st enough
                  (λ cik. children.met component cik (inl refl)) children.few)
                (λ st' _.
                  resolve_components-Fine resolve n r rest st' enough (tail-Children children)) in
            record { at = λ h. step.at (ground (arith, h, e)) }
      ]

  service_components-Fine :
      (resolve : Node → Progress → Result (ResolveError E) Progress) (n : ℕ) (r : Resolved)
      (st : Progress)
      → Enough n resolve
      → ((components : List ServiceComponent)
          → sorted_topologically r.service ≡ ok components
          → Children n r components)
      → Fine (resolve_service_components external policy resolve r st)
  unfolding resolve_service_components
  service_components-Fine resolve n r st enough children =
      bind-Fine _ _ (map_error-Fine _ _ (λ e h. ground (arith, h))) (λ components sorted.
        bind-Fine _ _
          (resolve_components-Fine resolve n r components _ enough
            (children components (map_error-ok _ _ components sorted)))
          (λ v _. ok-Fine _))

  -- The number of missing keys falls with the service that is met.
  fewer_missing :
      KeysIn
      → (node : Node) (r : Resolved) → Met external policy d node
      → resolve_service external policy node ≡ ok r
      → contains node.path (get_key r.service_key) ≡ false
      → missing (r.node.path ++ get_key r.service_key ∷ []) universe < missing node.path universe
  fewer_missing keys_in node r met found fresh =
      let is_found = (resolve_service-IsFound external policy node).at r found in
      let inside = keys_in node r met found in
      ground (
        arith,
        is_found.same_path,
        missing-append node.path universe (get_key r.service_key) inside fresh,
      )

  node_step-Fine :
      KeysIn
      → (fuel : ℕ) (node : Node) (st : Progress) → Met external policy d node
      → ((r : Resolved)
          → resolve_service external policy node ≡ ok r
          → missing (r.node.path ++ get_key r.service_key ∷ []) universe
            < missing node.path universe
          → Fine
              (resolve_service_components external policy (resolve_node external policy fuel) r st))
      → Fine (resolve_node external policy (suc fuel) node st)
  unfolding resolve_node
  node_step-Fine keys_in fuel node st met next =
      bind-Fine _ _ (resolve_service-Fine external policy node) (λ r found.
        elim (Bool-cases (contains node.path (get_key r.service_key))) [
          | inl cycle ↦ record { at = λ h. ground (arith, h, cycle) }
          | inr fresh ↦ record {
            at = λ h.
                (next r found (fewer_missing keys_in node r met found fresh)).at
                  (ground (arith, h, fresh));
          }
        ])

  -- More fuel than there are keys that are not on the path is enough.
  resolve_node-Fine : KeysIn → (fuel : ℕ) → Enough fuel (resolve_node external policy (suc fuel))
  resolve_node-Fine keys_in zero node st met few =
      node_step-Fine keys_in zero node st met (λ r found fewer. absurd (omega (arith, fewer, few)))
  resolve_node-Fine keys_in (suc n) node st met few =
      node_step-Fine keys_in (suc n) node st met (λ r found fewer.
        service_components-Fine (resolve_node external policy (suc n)) n r st
          (resolve_node-Fine keys_in n)
          (λ components sorted. record {
            met = λ component cik inside given.
                at_child node r components component cik met found sorted inside given;
            few = omega (arith, fewer, few);
          }))

  -- If all keys of services that the resolution of a dependency may meet stand in a list, then one
  -- more than its length is enough fuel to resolve the dependency: the recursion ends, with a
  -- resolution or with an error of the code, such as a service cycle.
  pub resolve_dependency-ne-out_of_fuel :
      KeysIn → resolve_dependency external policy (suc (length universe)) d ≢ err out_of_fuel
  unfolding resolve_dependency
  resolve_dependency-ne-out_of_fuel keys_in =
      (bind-Fine _ _
        (resolve_node-Fine keys_in (length universe) (init_resolution_node external policy d) _
          at_start (missing-le-length _ universe))
        (λ st _. ok-Fine _)).at
