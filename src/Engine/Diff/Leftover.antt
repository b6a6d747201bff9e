-- ===== src/Engine/Diff/Leftover.antt =====
-- pkg/engine/diff: an instance whose deletion has failed after its dependencies were detached.
use aptomi.Base.{ℕ, String, true, false, ◌≡◌, ◌≢◌, refl, none, some, [], ◌∷◌, arith}
use aptomi.Base.Dict.{Dict, lookup, has}
use aptomi.Base.Result.{ok}
use aptomi.Engine.Keys.{get_key}
use aptomi.Engine.Instances.{ComponentInstance}
use aptomi.Engine.Resolution.{PolicyResolution}
use aptomi.Engine.Actions.{ActionContext, run}
use aptomi.Engine.Diff.{dependencies_of, is_nil, detaches, own_actions}
use aptomi.Engine.Diff.Steps.{detaches-Kept}
use aptomi.Engine.Diff.Convergence.{is_nil-true, own_actions-nothing}

none-nil : (d : Dict ℕ) → ((k : String) → has k d ≡ false) → is_nil d ≡ true
unfolding has
none-nil [] h = refl
none-nil ((k, _) ∷ d) h = ground (arith, h k)

-- If no dependency is to keep an instance of the actual state, that stands under its own key, then
-- after its dependencies have been detached the instance is still there, and the diff makes no
-- action for it any more, so that it is not deleted when the deletion behind these actions fails.
pub own_actions-detached :
    {E : Type 0} (context : ActionContext E) (k : String) (i : ComponentInstance)
    (actual actual' : PolicyResolution)
    → lookup k actual ≡ some i
    → get_key i.key ≡ k
    → is_nil (dependencies_of (lookup k context.desired_state)) ≡ true
    → run context
        (detaches k i.dependency_keys (dependencies_of (lookup k context.desired_state)))
        actual
      ≡ ok actual'
    → (lookup k actual' ≢ none)
      × (own_actions k (lookup k actual') (lookup k context.desired_state) ≡ [])
unfolding has
own_actions-detached context k i actual actual' at keyed n e =
    let next = dependencies_of (lookup k context.desired_state) in
    let h =
      detaches-Kept context k i.dependency_keys next (λ d. has d i.dependency_keys) actual actual'
        (record { instance_at = i; found = at; keyed = keyed; kept = λ d. refl }) e in
    let gone : (d : String) → has d h.instance_at.dependency_keys ≡ false =
      λ d. ground (arith, h.kept d, is_nil-true next n) in
    (
      λ missing. ground (arith, missing, h.found),
      own_actions-nothing k (lookup k actual') (lookup k context.desired_state)
          (ground (arith, h.found, none-nil h.instance_at.dependency_keys gone)) n,
    )
