-- ===== src/Engine/Resolver/Invariant.antt =====
-- pkg/engine/resolve/policy_resolver.go: what every Record method of the resolution keeps, the
-- resolution of a node keeps when it succeeds.
use aptomi.Base.{
  ℕ, zero, suc, String, true, false, Option, none, some, List, [], ◌∷◌, ◌==◌, inl, inr, Bool-cases,
  Option-cases,
}
use aptomi.Base.Lists.{contains}
use aptomi.Base.Result.{Result, OnOk, ok-OnOk, err-OnOk, any-OnOk, bind-OnOk, Result-cases}
use aptomi.Util.Params.{Params}
use aptomi.Lang.Objects.{Code, ServiceComponent, Dependency}
use aptomi.Lang.Components.{sorted_topologically}
use aptomi.Lang.Policy.{Policy}
use aptomi.Engine.Keys.{ComponentInstanceKey, get_key}
use aptomi.Engine.Instances.{InstanceError}
use aptomi.Engine.Resolution
use aptomi.Lang.Labels.{Labels}
use aptomi.Lang.Rules.{RuleActionResult}
use aptomi.Engine.Resolution.{PolicyResolution}
use aptomi.Engine.Nodes.{
  External, ResolveError, Node, Resolved, Progress, map_error, evaluate_params, announce,
  stored_params, calculate_and_store_code_params, calculate_and_store_discovery_params,
  create_component_key, component_matches, resolve_service,
}
use aptomi.Engine.Resolver.{
  resolve_child, resolve_body, enter_component, enter_service, resolve_component,
  resolve_components, finish_service, Visited, all_visited, returned_early, create_child_node,
  resolve_service_components, resolve_node,
}

-- A property of resolutions that the Record methods keep.
pub record Closed (P : PolicyResolution → Type 0) : Type 0 where
  pub record_resolved :
      (cik : ComponentInstanceKey) (d : Dependency) (depth : ℕ) (result : RuleActionResult)
      (r : PolicyResolution)
      → P r
      → P (Resolution.record_resolved cik d depth result r)
  pub record_labels :
      (cik : ComponentInstanceKey) (labels : Labels) (r : PolicyResolution)
      → P r
      → P (Resolution.record_labels cik labels r)
  pub store_edge :
      (src dst : Option ComponentInstanceKey) (r : PolicyResolution)
      → P r
      → P (Resolution.store_edge src dst r)
  pub record_code_params :
      (cik : ComponentInstanceKey) (p : Params) (r : PolicyResolution)
      → P r
      → P (Resolution.record_code_params cik p r).0
  pub record_discovery_params :
      (cik : ComponentInstanceKey) (p : Params) (r : PolicyResolution)
      → P r
      → P (Resolution.record_discovery_params cik p r).0

-- The progress with which the loop ends.
abbrev pub reached : Visited → Progress
reached (all_visited st) = st
reached (returned_early st) = st

module _ {E : Type 0} (external : External E) (policy : Policy) (P : PolicyResolution → Type 0)
    (closed : Closed P) where
  abbrev Stays : Progress → Type 0
  Stays st = P st.resolution

  stored-OnOk :
      (st : Progress) (result : PolicyResolution × Option InstanceError)
      → P result.0
      → OnOk Stays (stored_params external policy st result)
  stored-OnOk st (r, none) h = ok-OnOk Stays _ h
  stored-OnOk st (r, some e) h = err-OnOk Stays _

  code_params-OnOk :
      (r : Resolved) (cik : ComponentInstanceKey) (code : Code) (st : Progress)
      → Stays st
      → OnOk Stays (calculate_and_store_code_params external policy r cik code st)
  unfolding calculate_and_store_code_params
  code_params-OnOk r cik code st h =
      bind-OnOk _ _ _ (any-OnOk (evaluate_params external policy r cik st.discovery code.params))
        (λ p _ _. stored-OnOk st _ (closed.record_code_params cik p st.resolution h))

  announce-OnOk :
      (name : String) (cik : ComponentInstanceKey) (p : Params) (st : Progress)
      → Stays st
      → OnOk Stays (announce external policy name cik p st)
  unfolding announce
  announce-OnOk name cik p st h =
      bind-OnOk _ _ _ (any-OnOk (map_error _ _)) (λ m _ _. ok-OnOk Stays _ h)

  discovery_params-OnOk :
      (r : Resolved) (component : ServiceComponent) (cik : ComponentInstanceKey) (st : Progress)
      → Stays st
      → OnOk Stays (calculate_and_store_discovery_params external policy r component cik st)
  unfolding calculate_and_store_discovery_params
  discovery_params-OnOk r component cik st h =
      bind-OnOk _ _ _
        (any-OnOk (evaluate_params external policy r cik st.discovery component.discovery))
        (λ p _ _.
          bind-OnOk Stays _ _
            (stored-OnOk st _ (closed.record_discovery_params cik p st.resolution h))
            (λ st' _ h'. announce-OnOk component.name cik p st' h'))

  -- What a recursive call keeps.
  abbrev Keeps : (Node → Progress → Result (ResolveError E) Progress) → Type 0
  Keeps resolve = (node : Node) (st : Progress) → Stays st → OnOk Stays (resolve node st)

  resolve_child-OnOk :
      (resolve : Node → Progress → Result (ResolveError E) Progress) (r : Resolved)
      (component : ServiceComponent) (cik : ComponentInstanceKey) (st : Progress)
      → Keeps resolve
      → Stays st
      → OnOk Stays (resolve_child external policy resolve r component cik st)
  unfolding resolve_child
  resolve_child-OnOk resolve r component cik st keeps h =
      bind-OnOk _ _ _ (any-OnOk (map_error _ _)) (λ m _ _.
        bind-OnOk _ _ _ (keeps (create_child_node external policy r component cik) _ h)
          (λ st' _ h'. ok-OnOk Stays _ h'))

  resolve_body-OnOk :
      (resolve : Node → Progress → Result (ResolveError E) Progress) (r : Resolved)
      (component : ServiceComponent) (cik : ComponentInstanceKey) (st : Progress)
      → Keeps resolve
      → Stays st
      → OnOk Stays (resolve_body external policy resolve r component cik st)
  unfolding resolve_body
  resolve_body-OnOk resolve r component cik st keeps h = elim (Option-cases component.code) [
    | inr (code, e) ↦ rw (e, resolve_body) (code_params-OnOk r cik code st h)
    | inl e ↦ elim (Bool-cases (component.contract == "")) [
      | inl empty ↦ rw (e, empty, resolve_body) (ok-OnOk Stays st h)
      | inr other ↦
          rw (e, other, resolve_body) (resolve_child-OnOk resolve r component cik st keeps h)
    ]
  ]

  resolve_component-OnOk :
      (resolve : Node → Progress → Result (ResolveError E) Progress) (r : Resolved)
      (component : ServiceComponent) (st : Progress)
      → Keeps resolve
      → Stays st
      → OnOk Stays (resolve_component external policy resolve r component st)
  unfolding resolve_component enter_component
  resolve_component-OnOk resolve r component st keeps h =
      bind-OnOk _ _ _
        (any-OnOk (
          create_component_key external policy r.contract r.context r.allocation_keys r.service
            r.node.labels (some component)))
        (λ cik _ _.
          bind-OnOk _ _ _
            (bind-OnOk Stays _ _
              (discovery_params-OnOk r component cik _ (
                closed.record_labels cik r.node.labels _
                  (closed.store_edge (some r.service_key) (some cik) st.resolution h)))
              (λ st' _ h'. resolve_body-OnOk resolve r component cik st' keeps h'))
            (λ st' _ h'.
              ok-OnOk Stays _ (closed.record_resolved cik r.node.dependency r.node.depth _ _ h')))

  pub resolve_components-OnOk :
      (resolve : Node → Progress → Result (ResolveError E) Progress) (r : Resolved)
      (components : List ServiceComponent) (st : Progress)
      → Keeps resolve
      → Stays st
      → OnOk (λ v. Stays (reached v)) (resolve_components external policy resolve r components st)
  unfolding resolve_components
  resolve_components-OnOk resolve r [] st keeps h = ok-OnOk _ _ h
  resolve_components-OnOk resolve r (component ∷ rest) st keeps h =
      elim (Result-cases (component_matches external policy r component)) [
        | inr (f, e) ↦
            rw (e, resolve_components) (ok-OnOk (λ v. Stays (reached v)) (returned_early st) h)
        | inl (false, e) ↦
            rw (e, resolve_components) (resolve_components-OnOk resolve r rest st keeps h)
        | inl (true, e) ↦
            rw (e, resolve_components)
              (bind-OnOk (λ v. Stays (reached v)) _ _
                (resolve_component-OnOk resolve r component st keeps h)
                (λ st' _ h'. resolve_components-OnOk resolve r rest st' keeps h'))
      ]

  finish_service-Stays :
      (r : Resolved) (v : Visited) → Stays (reached v) → Stays (finish_service external policy r v)
  unfolding finish_service
  finish_service-Stays r (all_visited st) h =
      closed.record_resolved r.service_key r.node.dependency r.node.depth _ _ h
  finish_service-Stays r (returned_early st) h = h

  service_components-OnOk :
      (resolve : Node → Progress → Result (ResolveError E) Progress) (r : Resolved) (st : Progress)
      → Keeps resolve
      → Stays st
      → OnOk Stays (resolve_service_components external policy resolve r st)
  unfolding resolve_service_components enter_service
  service_components-OnOk resolve r st keeps h =
      bind-OnOk _ _ _ (any-OnOk (map_error _ (sorted_topologically r.service))) (λ components _ _.
        bind-OnOk _ _ _
          (resolve_components-OnOk resolve r components _ keeps (
            closed.store_edge r.node.arrival_key (some r.service_key) _
              (closed.record_labels r.service_key r.node.labels st.resolution h)))
          (λ v _ h'. ok-OnOk Stays _ (finish_service-Stays r v h')))

  pub resolve_node-OnOk : (fuel : ℕ) → Keeps (resolve_node external policy fuel)
  unfolding resolve_node
  resolve_node-OnOk zero node st h = err-OnOk Stays _
  resolve_node-OnOk (suc fuel) node st h =
      bind-OnOk _ _ _ (any-OnOk (resolve_service external policy node)) (λ r _ _.
        elim (Bool-cases (contains node.path (get_key r.service_key))) [
          | inl cycle ↦ rw (cycle) (err-OnOk Stays _)
          | inr fresh ↦ rw (fresh) (
              service_components-OnOk (resolve_node external policy fuel) r st
                (resolve_node-OnOk fuel) h)
        ])
