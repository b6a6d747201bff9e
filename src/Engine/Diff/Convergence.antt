-- ===== src/Engine/Diff/Convergence.antt =====
-- pkg/engine/diff and pkg/engine/apply/action/component: the actions that the diff makes for a key
-- bring the dependencies of this key to the desired ones.
use aptomi.Base.{
  ℕ, String, Bool, true, false, ◌≡◌, refl, sym, subst, ◌∙◌, inl, inr, Bool-cases, Option, none,
  some, List, [], ◌∷◌, ◌++◌, arith, if◌then◌else◌,
}
use aptomi.Base.Dict.{Dict, lookup, has}
use aptomi.Base.Result.{ok}
use aptomi.Engine.Keys.{get_key}
use aptomi.Engine.Instances.{ComponentInstance}
use aptomi.Engine.Resolution.{PolicyResolution}
use aptomi.Engine.Actions.{Action, ActionContext, create, update, delete, run}
use aptomi.Engine.Diff.{
  dependencies_of, params_of, is_nil, detaches, attaches, creates, needs_update, is_destructed,
  own_actions,
}
use aptomi.Engine.Diff.Steps.{
  Kept, run-between, create-Kept, delete-gone, update-run-Kept, detaches-Kept, attaches-Kept,
}

pub is_nil-true : (d : Dict ℕ) → is_nil d ≡ true → d ≡ []
is_nil-true [] h = refl
is_nil-true (x ∷ d) h = ground (arith, h)

dependencies_of-some :
    (o : Option ComponentInstance)
    → is_nil (dependencies_of o) ≡ false
    → (i : ComponentInstance) × (o ≡ some i)
dependencies_of-some none h = absurd (ground (arith, h))
dependencies_of-some (some i) h = (i, refl)

pub own_actions-nothing :
    (k : String) (prev next : Option ComponentInstance)
    → is_nil (dependencies_of prev) ≡ true
    → is_nil (dependencies_of next) ≡ true
    → own_actions k prev next ≡ []
unfolding own_actions creates detaches attaches is_destructed needs_update
own_actions-nothing k prev next p n =
    ground (arith, p, n, is_nil-true (dependencies_of prev) p, is_nil-true (dependencies_of next) n)

module _ {E : Type 0} (context : ActionContext E) where
  abbrev desired : String → Option ComponentInstance
  desired k = lookup k context.desired_state

  -- Every instance stands under its own key.
  abbrev pub IsKeyed : String → PolicyResolution → Type 0
  IsKeyed k s = (i : ComponentInstance) → lookup k s ≡ some i → get_key i.key ≡ k

  -- The component is new.
  created :
      (k : String) (i : ComponentInstance) (s s' : PolicyResolution) (d : String)
      → desired k ≡ some i
      → get_key i.key ≡ k
      → run context (create k i.calculated_code_params ∷ attaches k i.dependency_keys []) s ≡ ok s'
      → has d (dependencies_of (lookup k s')) ≡ has d i.dependency_keys
  unfolding has
  created k i s s' d at keyed e =
      let (s₁, h, e₁) =
        create-Kept context k i.calculated_code_params (attaches k i.dependency_keys []) s s' i at
          keyed e in
      let after =
        attaches-Kept context k i.dependency_keys [] (λ d. has d i.dependency_keys) s₁ s' h e₁ in
      ground (arith, after.found, after.kept d)

  own_actions-created :
      (k : String) (prev : Option ComponentInstance) (i : ComponentInstance)
      → is_nil (dependencies_of prev) ≡ true
      → is_nil i.dependency_keys ≡ false
      → own_actions k prev (some i)
        ≡ create k i.calculated_code_params ∷ attaches k i.dependency_keys []
  unfolding own_actions creates detaches is_destructed needs_update
  own_actions-created k prev i p n = ground (arith, p, n, is_nil-true (dependencies_of prev) p)

  own_actions-deleted :
      (k : String) (prev next : Option ComponentInstance)
      → is_nil (dependencies_of prev) ≡ false
      → is_nil (dependencies_of next) ≡ true
      → own_actions k prev next
        ≡ detaches k (dependencies_of prev) (dependencies_of next) ++ delete k (params_of prev) ∷ []
  unfolding own_actions is_destructed
  own_actions-deleted k prev next p n = ground (arith, p, n)

  updates : String → Option ComponentInstance → Option ComponentInstance → List Action
  unfolding needs_update
  updates k prev next =
      if needs_update prev next then update k (params_of prev) (params_of next) ∷ [] else []

  own_actions-kept :
      (k : String) (prev next : Option ComponentInstance)
      → is_nil (dependencies_of prev) ≡ false
      → is_nil (dependencies_of next) ≡ false
      → own_actions k prev next
        ≡ detaches k (dependencies_of prev) (dependencies_of next)
          ++ (updates k prev next ++ attaches k (dependencies_of next) (dependencies_of prev))
  unfolding own_actions creates is_destructed updates
  own_actions-kept k prev next p n = ground (arith, p, n)

  updates-Kept :
      (k : String) (prev : Option ComponentInstance) (j : ComponentInstance) (deps : String → Bool)
      (rest : List Action) (s s' : PolicyResolution)
      → desired k ≡ some j
      → get_key j.key ≡ k
      → Kept k deps s
      → run context (updates k prev (some j) ++ rest) s ≡ ok s'
      → (s₁ : PolicyResolution) × Kept k deps s₁ × (run context rest s₁ ≡ ok s')
  unfolding updates
  updates-Kept k prev j deps rest s s' at keyed h e =
      elim (Bool-cases (needs_update prev (some j))) [
        | inl needed ↦
            update-run-Kept context k (params_of prev) j.calculated_code_params deps s s' rest j at
              keyed h (ground (arith, e, needed))
        | inr not_needed ↦ (s, h, ground (arith, e, not_needed))
      ]

  deleted :
      (k : String) (i : ComponentInstance) (next : Option ComponentInstance)
      (s s' : PolicyResolution) (d : String)
      → lookup k s ≡ some i
      → get_key i.key ≡ k
      → is_nil (dependencies_of next) ≡ true
      → run context
          (detaches k i.dependency_keys (dependencies_of next)
            ++ delete k i.calculated_code_params ∷ [])
          s
        ≡ ok s'
      → has d (dependencies_of (lookup k s')) ≡ has d (dependencies_of next)
  unfolding has
  deleted k i next s s' d at keyed n e =
      let (s₁, first, second) =
        run-between context (detaches k i.dependency_keys (dependencies_of next))
          (delete k i.calculated_code_params ∷ []) s s' e in
      let h : Kept k (λ x. has x i.dependency_keys) s = record {
        instance_at = i;
        found = at;
        keyed = keyed;
        kept = λ x. refl;
      } in
      let h₁ =
        detaches-Kept context k i.dependency_keys (dependencies_of next)
          (λ x. has x i.dependency_keys) s s₁ h first in
      ground (
        arith,
        is_nil-true (dependencies_of next) n,
        delete-gone context k i.calculated_code_params _ s₁ s' h₁ second,
      )

  kept_lem :
      (k : String) (i j : ComponentInstance) (s s' : PolicyResolution) (d : String)
      → lookup k s ≡ some i
      → get_key i.key ≡ k
      → desired k ≡ some j
      → get_key j.key ≡ k
      → run context
          (detaches k i.dependency_keys j.dependency_keys
            ++ (updates k (some i) (some j) ++ attaches k j.dependency_keys i.dependency_keys))
          s
        ≡ ok s'
      → has d (dependencies_of (lookup k s')) ≡ has d j.dependency_keys
  kept_lem k i j s s' d at keyed at_next keyed_next e =
      let (s₁, first, second) =
        run-between context (detaches k i.dependency_keys j.dependency_keys)
          (updates k (some i) (some j) ++ attaches k j.dependency_keys i.dependency_keys) s s' e in
      let h : Kept k (λ x. has x i.dependency_keys) s = record {
        instance_at = i;
        found = at;
        keyed = keyed;
        kept = λ x. refl;
      } in
      let h₁ =
        detaches-Kept context k i.dependency_keys j.dependency_keys (λ x. has x i.dependency_keys) s
          s₁ h first in
      let (s₂, h₂, third) =
        updates-Kept k (some i) j _ (attaches k j.dependency_keys i.dependency_keys) s₁ s' at_next
          keyed_next h₁ second in
      let h₃ = attaches-Kept context k j.dependency_keys i.dependency_keys _ s₂ s' h₂ third in
      ground (arith, h₃.found, h₃.kept d)

  -- The four cases, by whether there are dependencies before and after.
  converge :
      (k : String) (actual actual' : PolicyResolution) (d : String)
      (prev next : Option ComponentInstance)
      → lookup k actual ≡ prev
      → desired k ≡ next
      → IsKeyed k actual
      → IsKeyed k context.desired_state
      → run context (own_actions k prev next) actual ≡ ok actual'
      → has d (dependencies_of (lookup k actual')) ≡ has d (dependencies_of next)
  unfolding run has
  converge k actual actual' d prev next at at_next keyed keyed_next e =
      elim (Bool-cases (is_nil (dependencies_of prev))) [
        | inl p ↦ elim (Bool-cases (is_nil (dependencies_of next))) [
          | inl n ↦ ground (
            arith,
            e,
            at,
            own_actions-nothing k prev next p n,
            is_nil-true (dependencies_of prev) p,
            is_nil-true (dependencies_of next) n,
          )
          | inr n ↦
              let (j, is_j) = dependencies_of-some next n in
              let at_j = at_next ∙ is_j in
              subst (λ o. has d (dependencies_of (lookup k actual')) ≡ has d (dependencies_of o))
                (sym is_j)
                (created k j actual actual' d at_j (keyed_next j at_j)
                  (ground (arith, e, is_j, n, own_actions-created k prev j p)))
        ]
        | inr p ↦
            let (i, is_i) = dependencies_of-some prev p in
            let at_i = at ∙ is_i in
            elim (Bool-cases (is_nil (dependencies_of next))) [
              | inl n ↦
                  deleted k i next actual actual' d at_i (keyed i at_i) n
                    (ground (arith, e, is_i, own_actions-deleted k prev next p n))
              | inr n ↦
                  let (j, is_j) = dependencies_of-some next n in
                  let at_j = at_next ∙ is_j in
                  subst
                    (λ o. has d (dependencies_of (lookup k actual')) ≡ has d (dependencies_of o))
                    (sym is_j)
                    (kept_lem k i j actual actual' d at_i (keyed i at_i) at_j (keyed_next j at_j)
                      (ground (arith, e, is_i, is_j, own_actions-kept k prev next p n)))
            ]
      ]

  -- If the instances of the actual and the desired state stand under their own keys and all actions
  -- that buildActions adds to the node of a key succeed, then the same dependencies keep the instance
  -- of this key in the actual state afterwards as in the desired state.
  pub run-own_actions :
      (k : String) (actual actual' : PolicyResolution) (d : String)
      → IsKeyed k actual
      → IsKeyed k context.desired_state
      → run context (own_actions k (lookup k actual) (lookup k context.desired_state)) actual
        ≡ ok actual'
      → has d (dependencies_of (lookup k actual'))
        ≡ has d (dependencies_of (lookup k context.desired_state))
  run-own_actions k actual actual' d keyed keyed_next e =
      converge k actual actual' d (lookup k actual) (desired k) refl refl keyed keyed_next e
