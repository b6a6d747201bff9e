-- ===== src/Engine/Diff/Steps.antt =====
-- pkg/engine/diff and pkg/engine/apply/action/component: what the actions of a key do to its instance.
use aptomi.Base.{
  ℕ, String, Bool, false, not, ◌&&◌, ◌||◌, ◌≡◌, refl, ap, ◌∙◌, inl, inr, Bool-cases, none, some,
  List, [], ◌∷◌, ◌++◌, ◌==◌, arith,
}
use aptomi.Base.Dict.{
  Dict, lookup, insert, erase, has, lookup-insert, lookup-erase, has-insert, has-erase,
}
use aptomi.Base.Result.{ok, ◌>>=◌, Result-cases}
use aptomi.Util.Params.{Params}
use aptomi.Engine.Keys.{get_key}
use aptomi.Engine.Instances.{ComponentInstance}
use aptomi.Engine.Resolution.{PolicyResolution}
use aptomi.Engine.Actions.{
  Action, ActionContext, create, update, delete, creating, updating, destroying, process_deployment,
  update_component_instance, create_component_instance, apply_action, run,
}
use aptomi.Engine.Diff.{detaches, attaches}

-- The actual state holds an instance for the key, under its own key, with these dependencies.
pub record Kept (k : String) (deps : String → Bool) (s : PolicyResolution) : Type 0 where
  pub instance_at : ComponentInstance
  pub found : lookup k s ≡ some instance_at
  pub keyed : get_key instance_at.key ≡ k
  pub kept : (d : String) → has d instance_at.dependency_keys ≡ deps d

module _ {E : Type 0} (context : ActionContext E) where
  run-append :
      (xs ys : List Action) (s : PolicyResolution)
      → run context (xs ++ ys) s ≡ (run context xs s >>= run context ys)
  unfolding run
  run-append [] ys s = refl
  run-append (a ∷ xs) ys s = elim (Result-cases (apply_action context a s)) [
    | inl (s', e) ↦ ground (arith, e, run-append xs ys s')
    | inr (f, e) ↦ ground (arith, e)
  ]

  update-found :
      (k : String) (change : ComponentInstance → ComponentInstance) (s : PolicyResolution)
      (i : ComponentInstance)
      → lookup k s ≡ some i
      → update_component_instance context k change s
        ≡ ok (insert k (change (record i { updated_at = context.now })) s)
  unfolding update_component_instance
  update-found k change s i at = rw (at, update_component_instance) refl

  update-Kept :
      (k : String) (deps deps' : String → Bool) (s : PolicyResolution)
      (change : ComponentInstance → ComponentInstance)
      → Kept k deps s
      → ((i : ComponentInstance) → (change i).key ≡ i.key)
      → ((i : ComponentInstance) (d : String)
          → has d i.dependency_keys ≡ deps d
          → has d (change i).dependency_keys ≡ deps' d)
      → (s' : PolicyResolution) → update_component_instance context k change s ≡ ok s'
      → Kept k deps' s'
  unfolding update_component_instance
  update-Kept k deps deps' s change h key_same dep_same s' e =
      let i = record h.instance_at { updated_at = context.now } in
      record {
        instance_at = change i;
        found = ground (
          arith,
          e,
          h.found,
          lookup-insert k k (change i) s,
          update-found k change s h.instance_at,
        );
        keyed = ap get_key (key_same i) ∙ h.keyed;
        kept = λ d. dep_same i d (h.kept d);
      }

  pub Kept-ext :
      (k : String) (deps deps' : String → Bool) (s s' : PolicyResolution)
      → Kept k deps s
      → ((d : String) → deps d ≡ deps' d)
      → s ≡ s'
      → Kept k deps' s'
  Kept-ext k deps deps' s s' h same e = record {
    instance_at = h.instance_at;
    found = ground (arith, e, h.found);
    keyed = h.keyed;
    kept = λ d. h.kept d ∙ same d;
  }

  -- One step of a run that changes the instance of the key, and what is left to run.
  step-Kept :
      (k : String) (deps deps' : String → Bool) (s s' : PolicyResolution)
      (change : ComponentInstance → ComponentInstance) (rest : List Action)
      → Kept k deps s
      → ((i : ComponentInstance) → (change i).key ≡ i.key)
      → ((i : ComponentInstance) (d : String)
          → has d i.dependency_keys ≡ deps d
          → has d (change i).dependency_keys ≡ deps' d)
      → (update_component_instance context k change s >>= run context rest) ≡ ok s'
      → (s₁ : PolicyResolution) × Kept k deps' s₁ × (run context rest s₁ ≡ ok s')
  step-Kept k deps deps' s s' change rest h key_same dep_same e =
      let i = record h.instance_at { updated_at = context.now } in
      let at = update-found k change s h.instance_at h.found in
      (
        insert k (change i) s,
        update-Kept k deps deps' s change h key_same dep_same (insert k (change i) s) at,
        ground (arith, e, at),
      )

  pub detaches-Kept :
      (k : String) (prev next : Dict ℕ) (deps : String → Bool) (s s' : PolicyResolution)
      → Kept k deps s
      → run context (detaches k prev next) s ≡ ok s'
      → Kept k (λ d. deps d && not (has d prev && not (has d next))) s'
  unfolding detaches run has apply_action
  detaches-Kept k [] next deps s s' h e =
      Kept-ext k deps (λ d. deps d && not (false && not (has d next))) s s' h (λ d. ground arith)
        (ground (arith, e))
  detaches-Kept k ((d, depth) ∷ prev) next deps s s' h e = elim (Bool-cases (has d next)) [
    | inl stays ↦
        let after = detaches-Kept k prev next deps s s' h (ground (arith, e, stays)) in
        Kept-ext k (λ x. deps x && not (has x prev && not (has x next)))
          (λ x. deps x && not ((x == d || has x prev) && not (has x next))) s' s' after
          (λ x. ground (arith, stays)) refl
    | inr goes ↦
        let (s₁, h₁, e₁) =
          step-Kept k deps (λ x. deps x && not (x == d)) s s'
            (λ o. record o { dependency_keys = erase d o.dependency_keys }) (detaches k prev next) h
            (λ i. refl) (λ i x kept. ground (arith, kept, has-erase x d i.dependency_keys))
            (ground (arith, e, goes)) in
        let after = detaches-Kept k prev next (λ x. deps x && not (x == d)) s₁ s' h₁ e₁ in
        Kept-ext k (λ x. (deps x && not (x == d)) && not (has x prev && not (has x next)))
          (λ x. deps x && not ((x == d || has x prev) && not (has x next))) s' s' after
          (λ x. ground (arith, goes)) refl
  ]

  pub attaches-Kept :
      (k : String) (next prev : Dict ℕ) (deps : String → Bool) (s s' : PolicyResolution)
      → Kept k deps s
      → run context (attaches k next prev) s ≡ ok s'
      → Kept k (λ d. deps d || (has d next && not (has d prev))) s'
  unfolding attaches run has apply_action
  attaches-Kept k [] prev deps s s' h e =
      Kept-ext k deps (λ d. deps d || (false && not (has d prev))) s s' h (λ d. ground arith)
        (ground (arith, e))
  attaches-Kept k ((d, depth) ∷ next) prev deps s s' h e = elim (Bool-cases (has d prev)) [
    | inl stays ↦
        let after = attaches-Kept k next prev deps s s' h (ground (arith, e, stays)) in
        Kept-ext k (λ x. deps x || (has x next && not (has x prev)))
          (λ x. deps x || ((x == d || has x next) && not (has x prev))) s' s' after
          (λ x. ground (arith, stays)) refl
    | inr comes ↦
        let (s₁, h₁, e₁) =
          step-Kept k deps (λ x. x == d || deps x) s s'
            (λ o. record o { dependency_keys = insert d depth o.dependency_keys })
            (attaches k next prev) h (λ i. refl)
            (λ i x kept. ground (arith, kept, has-insert x d depth i.dependency_keys))
            (ground (arith, e, comes)) in
        let after = attaches-Kept k next prev (λ x. x == d || deps x) s₁ s' h₁ e₁ in
        Kept-ext k (λ x. (x == d || deps x) || (has x next && not (has x prev)))
          (λ x. deps x || ((x == d || has x next) && not (has x prev))) s' s' after
          (λ x. ground (arith, comes)) refl
  ]

  -- A run of two lists stops between them.
  pub run-between :
      (xs ys : List Action) (s s' : PolicyResolution)
      → run context (xs ++ ys) s ≡ ok s'
      → (s₁ : PolicyResolution) × (run context xs s ≡ ok s₁) × (run context ys s₁ ≡ ok s')
  run-between xs ys s s' e = elim (Result-cases (run context xs s)) [
    | inl (s₁, at) ↦ (s₁, at, ground (arith, e, at, run-append xs ys s))
    | inr (f, failed) ↦ absurd (ground (arith, e, failed, run-append xs ys s))
  ]

  pub create-Kept :
      (k : String) (params : Params) (rest : List Action) (s s' : PolicyResolution)
      (i : ComponentInstance)
      → lookup k context.desired_state ≡ some i
      → get_key i.key ≡ k
      → run context (create k params ∷ rest) s ≡ ok s'
      → (s₁ : PolicyResolution) × Kept k (λ d. has d i.dependency_keys) s₁
        × (run context rest s₁ ≡ ok s')
  unfolding run apply_action create_component_instance
  create-Kept k params rest s s' i at keyed e =
      let o = record i { created_at = context.now; updated_at = context.now } in
      elim (Result-cases (process_deployment context creating i)) [
        | inr (f, failed) ↦ absurd (ground (arith, e, at, failed))
        | inl (_, deployed) ↦ (
          create_component_instance context i s,
          record {
            instance_at = o;
            found = ground (arith, keyed, lookup-insert k (get_key i.key) o s);
            keyed = keyed;
            kept = λ d. refl;
          },
          ground (arith, e, at, deployed),
        )
      ]

  pub delete-gone :
      (k : String) (params : Params) (deps : String → Bool) (s s' : PolicyResolution)
      → Kept k deps s
      → run context (delete k params ∷ []) s ≡ ok s'
      → lookup k s' ≡ none
  unfolding run apply_action
  delete-gone k params deps s s' h e =
      elim (Result-cases (process_deployment context destroying h.instance_at)) [
        | inr (f, failed) ↦ absurd (ground (arith, e, h.found, failed))
        | inl (_, deployed) ↦ ground (arith, e, h.found, deployed, h.keyed, lookup-erase k k s)
      ]

  pub update-run-Kept :
      (k : String) (before params : Params) (deps : String → Bool) (s s' : PolicyResolution)
      (rest : List Action) (i : ComponentInstance)
      → lookup k context.desired_state ≡ some i
      → get_key i.key ≡ k
      → Kept k deps s
      → run context (update k before params ∷ rest) s ≡ ok s'
      → (s₁ : PolicyResolution) × Kept k deps s₁ × (run context rest s₁ ≡ ok s')
  unfolding run apply_action
  update-run-Kept k before params deps s s' rest i at keyed h e =
      elim (Result-cases (process_deployment context updating i)) [
        | inr (f, failed) ↦ absurd (ground (arith, e, at, failed))
        | inl (_, deployed) ↦ elim (Bool-cases (context.has_params i)) [
          | inr nil ↦ (s, h, ground (arith, e, at, deployed, nil))
          | inl given ↦
              step-Kept k deps deps s s'
                (λ o. record o {
                  endpoints_up_to_date = false;
                  calculated_code_params = i.calculated_code_params;
                })
                rest h (λ o. refl) (λ o d kept. kept)
                (ground (arith, e, at, deployed, keyed, given))
        ]
      ]
