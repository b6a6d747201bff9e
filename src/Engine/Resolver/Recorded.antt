-- ===== src/Engine/Resolver/Recorded.antt =====
-- pkg/engine/resolve/policy_resolver.go: a dependency whose resolution comes to its end counts as
-- resolved.
use aptomi.Base.{
  ℕ, zero, suc, String, Bool, true, false, ◌≡◌, refl, sym, subst, ◌∙◌, none, some, Option, List, [],
  ◌∷◌, ◌==◌, arith, inl, inr, Bool-cases,
}
use aptomi.Base.Dict.{lookup}
use aptomi.Base.Lists.{contains, In}
use aptomi.Base.Result.{
  Result, ok, err, OnOk, ok-OnOk, err-OnOk, any-OnOk, ok_injective, both-OnOk, bind-OnOk,
  Result-cases,
}
use aptomi.Util.Params.{end}
use aptomi.Lang.Components.{sorted_topologically}
use aptomi.Lang.Objects.{
  dependency, ServiceComponent, Dependency, Cluster, Contract, Context, Service,
}
use aptomi.Lang.Labels.{Labels, label_target, value}
use aptomi.Lang.Policy.{Policy}
use aptomi.Engine.Keys.{ComponentInstanceKey, get_key, is_service, new_component_instance_key}
use aptomi.Engine.Resolver.Keyed.{resolve_dependency-OnOk}
use aptomi.Engine.Resolver.Invariant.{reached, Closed, resolve_components-OnOk, resolve_node-OnOk}
use aptomi.Engine.Resolution.{PolicyResolution, key_for_storable, get_dependency_resolution}
use aptomi.Engine.Resolution.Marked.{marked-resolved}
use aptomi.Engine.Resolution.Kept.{
  HasEntry, IsMarked, record_labels-HasEntry, record_resolved-HasEntry, store_edge-HasEntry,
  record_code_params-HasEntry, record_discovery_params-HasEntry, record_resolved-IsMarked,
  new-HasEntry,
}
use aptomi.Engine.Nodes.Fuel.{map_error-ok}
use aptomi.Engine.Nodes.Found.{resolve_service-IsFound}
use aptomi.Engine.Nodes.{
  External, ResolveError, Node, Resolved, Progress, map_error, create_component_key,
  component_matches, resolve_service,
}
use aptomi.Engine.Resolver.{
  resolve_component, resolve_components, finish_service, enter_service, Visited, all_visited,
  returned_early, resolve_service_components, resolve_node, resolve_dependency,
  init_resolution_node,
}

new_service_key-is_service :
    (cluster : Option Cluster) (suffix : String) (c : Option Contract) (context : Option Context)
    (keys : List String) (s : Option Service)
    → is_service (new_component_instance_key cluster suffix c context keys s none) ≡ true
unfolding is_service new_component_instance_key
new_service_key-is_service cluster suffix c context keys s = ground arith

abbrev pub empty_progress : Progress
empty_progress = record { resolution = []; discovery = end }

abbrev pub is_ok : {E A : Type 0} → Result E A → Bool
is_ok (ok _) = true
is_ok (err _) = false

HasEntry-Closed : (k : String) (key : ComponentInstanceKey) → Closed (HasEntry k key)
HasEntry-Closed k key = record {
  record_resolved = record_resolved-HasEntry k key;
  record_labels = record_labels-HasEntry k key;
  store_edge = store_edge-HasEntry k key;
  record_code_params = record_code_params-HasEntry k key;
  record_discovery_params = record_discovery_params-HasEntry k key;
}

module _ {E : Type 0} (external : External E) (policy : Policy) where
  -- The criteria of all given components can be evaluated.
  abbrev pub AllEvaluate : Resolved → List ServiceComponent → Type 0
  AllEvaluate r components =
      (component : ServiceComponent)
      → In component components
      → is_ok (component_matches external policy r component) ≡ true

  resolve_components-all_visited :
      (resolve : Node → Progress → Result (ResolveError E) Progress) (r : Resolved)
      (components : List ServiceComponent) (st : Progress)
      → AllEvaluate r components
      → OnOk
          (λ v. (st' : Progress) × (v ≡ all_visited st'))
          (resolve_components external policy resolve r components st)
  unfolding resolve_components
  resolve_components-all_visited resolve r [] st all = ok-OnOk _ _ (st, refl)
  resolve_components-all_visited resolve r (component ∷ rest) st all =
      elim (Result-cases (component_matches external policy r component)) [
        | inr (f, e) ↦ absurd (ground (arith, all component (inl refl), e))
        | inl (false, e) ↦
            rw (e, resolve_components)
              (resolve_components-all_visited resolve r rest st (λ c inside. all c (inr inside)))
        | inl (true, e) ↦
            rw (e, resolve_components)
              (bind-OnOk _ _ _ (any-OnOk (resolve_component external policy resolve r component st))
                (λ st' _ _.
                  resolve_components-all_visited resolve r rest st'
                    (λ c inside. all c (inr inside))))
      ]

  -- What the end of the loop makes of an entry of the service.
  finish_service-IsMarked :
      (r : Resolved) (v : Visited) (st : Progress)
      → v ≡ all_visited st
      → HasEntry (get_key r.service_key) r.service_key (reached v).resolution
      → IsMarked
          (get_key r.service_key)
          r.service_key
          (key_for_storable (dependency r.node.dependency))
          r.node.depth
          (finish_service external policy r v).resolution
  unfolding finish_service
  finish_service-IsMarked r (all_visited st') st path h =
      record_resolved-IsMarked (get_key r.service_key) r.service_key r.service_key r.node.dependency
        r.node.depth r.rule_result st'.resolution refl h
  finish_service-IsMarked r (returned_early st') st path h = absurd (ground (arith, path))

  -- The service and its entry, after the loop over components whose criteria evaluate.
  service_components-OnOk :
      (resolve : Node → Progress → Result (ResolveError E) Progress) (r : Resolved) (st : Progress)
      → ((node : Node) (st' : Progress)
          → HasEntry (get_key r.service_key) r.service_key st'.resolution
          → OnOk
              (λ st''. HasEntry (get_key r.service_key) r.service_key st''.resolution)
              (resolve node st'))
      → ((components : List ServiceComponent)
          → sorted_topologically r.service ≡ ok components
          → AllEvaluate r components)
      → HasEntry
          (get_key r.service_key)
          r.service_key
          (enter_service external policy r st).resolution
      → OnOk
          (λ st'.
            IsMarked
              (get_key r.service_key)
              r.service_key
              (key_for_storable (dependency r.node.dependency))
              r.node.depth
              st'.resolution)
          (resolve_service_components external policy resolve r st)
  unfolding resolve_service_components
  service_components-OnOk resolve r st keeps all h =
      bind-OnOk _ _ _ (any-OnOk (map_error _ (sorted_topologically r.service)))
        (λ components sorted _.
          bind-OnOk _ _ _
            (both-OnOk _ _ _
              (resolve_components-OnOk external policy
                (HasEntry (get_key r.service_key) r.service_key) (HasEntry-Closed _ _) resolve r
                components (enter_service external policy r st) keeps h)
              (resolve_components-all_visited resolve r components
                (enter_service external policy r st)
                (all components (map_error-ok _ _ components sorted))))
            (λ v _ h'. ok-OnOk _ _ (finish_service-IsMarked r v h'.1.0 h'.1.1 h'.0)))

  create_component_key-is_service :
      (c : Contract) (context : Context) (keys : List String) (s : Service) (labels : Labels)
      → OnOk
          (λ key. is_service key ≡ true)
          (create_component_key external policy c context keys s labels none)
  unfolding create_component_key
  create_component_key-is_service c context keys s labels =
      elim (Bool-cases (value label_target labels == "")) [
        | inl empty ↦ rw (empty, create_component_key) (err-OnOk _ _)
        | inr set ↦
            rw (set, create_component_key)
              (bind-OnOk _ _ _ (any-OnOk (map_error _ _))
                (λ cluster _ _. ok-OnOk _ _ (new_service_key-is_service _ _ _ _ _ _)))
      ]

  -- A node whose service is found and is not on the path.
  pub fresh_node :
      (fuel : ℕ) (node : Node) (r : Resolved) (st : Progress)
      → resolve_service external policy node ≡ ok r
      → contains node.path (get_key r.service_key) ≡ false
      → resolve_node external policy (suc fuel) node st
        ≡ resolve_service_components external policy (resolve_node external policy fuel) r st
  unfolding resolve_node
  fresh_node fuel node r st found fresh = ground (arith, found, fresh)

  fresh_node-OnOk :
      (P : Progress → Type 0) (fuel : ℕ) (node : Node) (r : Resolved) (st : Progress)
      → resolve_service external policy node ≡ ok r
      → contains node.path (get_key r.service_key) ≡ false
      → OnOk P (resolve_service_components external policy (resolve_node external policy fuel) r st)
      → OnOk P (resolve_node external policy (suc fuel) node st)
  fresh_node-OnOk P fuel node r st found fresh h = rw (fresh_node fuel node r st found fresh) h

  -- What the resolution of a dependency's first node comes to.
  first_node-OnOk :
      (fuel : ℕ) (d : Dependency) (r : Resolved) (components : List ServiceComponent)
      → resolve_service external policy (init_resolution_node external policy d) ≡ ok r
      → sorted_topologically r.service ≡ ok components
      → AllEvaluate r components
      → OnOk
          (λ resolution.
            IsMarked
              (get_key r.service_key)
              r.service_key
              (key_for_storable (dependency d))
              0
              resolution)
          (resolve_dependency external policy (suc fuel) d)
  unfolding resolve_dependency enter_service init_resolution_node lookup
  first_node-OnOk fuel d r components found sorted all =
      let node = init_resolution_node external policy d in
      let st = empty_progress in
      let is_found = (resolve_service-IsFound external policy node).at r found in
      bind-OnOk _ _ _
        (fresh_node-OnOk _ fuel node r st found refl (
          service_components-OnOk (resolve_node external policy fuel) r st
            (resolve_node-OnOk external policy (HasEntry (get_key r.service_key) r.service_key)
              (HasEntry-Closed _ _) fuel)
            (λ cs e. subst (AllEvaluate r) (ok_injective components cs (sym sorted ∙ e)) all)
            (store_edge-HasEntry _ _ r.node.arrival_key (some r.service_key) _
              (new-HasEntry r.service_key r.node.labels [] refl))))
        (λ st' _ marked. ok-OnOk _ st'.resolution (
          subst
            (λ d'.
              IsMarked (get_key r.service_key) r.service_key (key_for_storable (dependency d')) 0
                st'.resolution)
            is_found.same_dependency
            (subst
              (λ depth.
                IsMarked (get_key r.service_key) r.service_key
                  (key_for_storable (dependency r.node.dependency)) depth st'.resolution)
              is_found.same_depth marked)))

  -- If the service of a dependency is found, the criteria of its components evaluate, and the
  -- resolution of the dependency succeeds, then the dependency counts as resolved in the result.
  pub resolved-resolve_dependency :
      (fuel : ℕ) (d : Dependency) (r : Resolved) (components : List ServiceComponent)
      (resolution : PolicyResolution)
      → resolve_service external policy (init_resolution_node external policy d) ≡ ok r
      → sorted_topologically r.service ≡ ok components
      → AllEvaluate r components
      → resolve_dependency external policy fuel d ≡ ok resolution
      → (get_dependency_resolution d resolution).resolved ≡ true
  unfolding resolve_dependency resolve_node
  resolved-resolve_dependency zero d r components resolution found sorted all h =
      absurd (ground (arith, h))
  resolved-resolve_dependency (suc fuel) d r components resolution found sorted all h =
      let is_found =
        (resolve_service-IsFound external policy (init_resolution_node external policy d)).at r
          found in
      marked-resolved r.service_key d resolution
        ((create_component_key-is_service r.contract r.context r.allocation_keys r.service
            r.node.labels).at
          r.service_key is_found.made_key)
        ((resolve_dependency-OnOk external policy (suc fuel) d).at resolution h)
        ((first_node-OnOk fuel d r components found sorted all).at resolution h)
