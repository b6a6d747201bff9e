-- ===== src/Engine/Nodes/Fuel.antt =====
-- pkg/engine/resolve/policy_resolver_node.go: no step of a node has the error that stands for fuel.
use aptomi.Base.{String, ◌≡◌, ◌≢◌, refl, ap, Option, none, some, List, [], ◌∷◌, arith, inl, inr}
use aptomi.Base.Result.{Result, ok, err, ◌>>=◌, Result-cases, ok_injective, err-OnOk}
use aptomi.Util.Params.{Params}
use aptomi.Lang.Labels.{Labels}
use aptomi.Lang.Objects.{Object, Contract, Context, Service, ServiceComponent, Code, User}
use aptomi.Lang.Policy.{Policy, get_object}
use aptomi.Engine.Instances.{InstanceError}
use aptomi.Engine.Keys.{ComponentInstanceKey}
use aptomi.Engine.Resolution.{PolicyResolution}
use aptomi.Engine.Nodes.{
  External, ResolveError, out_of_fuel, Node, Resolved, Progress, map_error, check_user_exists,
  get_contract, match_context, check_service, get_matched_service, create_component_key,
  resolve_service, evaluate_params, calculate_and_store_code_params, announce,
  calculate_and_store_discovery_params, as_service, stored_params,
}

module _ {E : Type 0} where
  -- The result is not the error that the fuel has run out.
  pub record Fine {A : Type 0} (r : Result (ResolveError E) A) : Type 0 where
    pub at : r ≢ err out_of_fuel

  pub ok-Fine : {A : Type 0} (a : A) → Fine (ok a)
  ok-Fine a = record { at = λ h. ground (arith, h) }

  pub bind-Fine :
      {A B : Type 0} (r : Result (ResolveError E) A) (f : A → Result (ResolveError E) B)
      → Fine r
      → ((a : A) → r ≡ ok a → Fine (f a))
      → Fine (r >>= f)
  bind-Fine (ok a) f h k = k a refl
  bind-Fine (err e) f h k = record { at = λ p. h.at (ground (arith, p)) }

  pub map_error-Fine :
      {F A : Type 0} (f : F → ResolveError E) (r : Result F A)
      → ((e : F) → f e ≢ out_of_fuel)
      → Fine (map_error f r)
  unfolding map_error
  map_error-Fine f (ok a) h = ok-Fine a
  map_error-Fine f (err e) h = record { at = λ p. h e (ground (arith, p)) }

  pub map_error-ok :
      {F A : Type 0} (f : F → ResolveError E) (r : Result F A) (a : A)
      → map_error f r ≡ ok a
      → r ≡ ok a
  unfolding map_error
  map_error-ok f (ok b) a h = ap ok (ok_injective b a h)
  map_error-ok f (err e) a h = absurd ((err-OnOk (λ _. ⊥) (f e)).at a h)

module _ {E : Type 0} (external : External E) (policy : Policy) where
  check_user_exists-Fine : (node : Node) → Fine (check_user_exists external policy node)
  unfolding check_user_exists
  check_user_exists-Fine node = record { at = λ h. ground (arith, h) }

  get_contract-Fine : (node : Node) → Fine (get_contract external policy node)
  unfolding get_contract
  get_contract-Fine node = record { at = λ h. ground (arith, h) }

  match_context-Fine :
      (labels : Labels) (contexts : List Context)
      → Fine (match_context external policy labels contexts)
  unfolding match_context
  match_context-Fine labels [] = record { at = λ h. ground (arith, h) }
  match_context-Fine labels (c ∷ rest) = record {
    at = λ h. ground (arith, h, (match_context-Fine labels rest).at);
  }

  check_service-Fine :
      (user : User) (c : Contract) (s : Service) → Fine (check_service external policy user c s)
  unfolding check_service
  check_service-Fine user c s = record { at = λ h. ground (arith, h) }

  found_service-Fine :
      (user : User) (c : Contract) (o : Option Object)
      → Fine (as_service o >>= check_service external policy user c)
  found_service-Fine user c o =
      bind-Fine (as_service o) (check_service external policy user c)
        (record { at = λ h. ground (arith, h) }) (λ s _. check_service-Fine user c s)

  get_matched_service-Fine :
      (user : User) (c : Contract) (context : Context)
      → Fine (get_matched_service external policy user c context)
  unfolding get_matched_service
  get_matched_service-Fine user c context =
      elim (Result-cases
        (get_object {E = E} "service" context.allocation.service c.metadata.namespace policy)) [
          | inl (o, e) ↦ record {
            at = λ h. (found_service-Fine user c o).at (ground (arith, h, e));
          }
          | inr (f, e) ↦ record { at = λ h. ground (arith, h, e) }
        ]

  pub create_component_key-Fine :
      (c : Contract) (context : Context) (keys : List String) (s : Service) (labels : Labels)
      (component : Option ServiceComponent)
      → Fine (create_component_key external policy c context keys s labels component)
  unfolding create_component_key map_error
  create_component_key-Fine c context keys s labels component = record {
    at = λ h. ground (arith, h);
  }

  pub resolve_service-Fine : (node : Node) → Fine (resolve_service external policy node)
  unfolding resolve_service
  resolve_service-Fine node = bind-Fine _ _ (check_user_exists-Fine node) (λ user _.
      bind-Fine _ _ (get_contract-Fine node) (λ c _.
        bind-Fine _ _ (match_context-Fine _ c.contexts) (λ context _.
          bind-Fine _ _ (get_matched_service-Fine user c context) (λ s _.
            bind-Fine _ _ (map_error-Fine _ _ (λ e h. ground (arith, h))) (λ keys _.
              bind-Fine _ _ (map_error-Fine _ _ (λ e h. ground (arith, h))) (λ rules _.
                bind-Fine _ _ (create_component_key-Fine c context keys s rules.labels none)
                  (λ key _. ok-Fine _)))))))

  evaluate_params-Fine :
      (r : Resolved) (cik : ComponentInstanceKey) (discovery tree : Params)
      → Fine (evaluate_params external policy r cik discovery tree)
  unfolding evaluate_params
  evaluate_params-Fine r cik discovery tree =
      bind-Fine _ _ (map_error-Fine _ _ (λ e h. ground (arith, h))) (λ p _. ok-Fine _)

  stored_params-Fine :
      (st : Progress) (result : PolicyResolution × Option InstanceError)
      → Fine (stored_params external policy st result)
  stored_params-Fine st (resolution, none) = ok-Fine _
  stored_params-Fine st (resolution, some e) = record { at = λ h. ground (arith, h) }

  announce-Fine :
      (name : String) (cik : ComponentInstanceKey) (params : Params) (st : Progress)
      → Fine (announce external policy name cik params st)
  unfolding announce
  announce-Fine name cik params st =
      bind-Fine _ _ (map_error-Fine _ _ (λ e h. ground (arith, h))) (λ p _. ok-Fine _)

  pub code_params-Fine :
      (r : Resolved) (cik : ComponentInstanceKey) (code : Code) (st : Progress)
      → Fine (calculate_and_store_code_params external policy r cik code st)
  unfolding calculate_and_store_code_params
  code_params-Fine r cik code st =
      bind-Fine _ _ (evaluate_params-Fine r cik st.discovery code.params)
        (λ p _. stored_params-Fine st _)

  pub discovery_params-Fine :
      (r : Resolved) (component : ServiceComponent) (cik : ComponentInstanceKey) (st : Progress)
      → Fine (calculate_and_store_discovery_params external policy r component cik st)
  unfolding calculate_and_store_discovery_params
  discovery_params-Fine r component cik st =
      bind-Fine _ _ (evaluate_params-Fine r cik st.discovery component.discovery) (λ p _.
        bind-Fine _ _ (stored_params-Fine st _) (λ st' _. announce-Fine component.name cik p st'))
