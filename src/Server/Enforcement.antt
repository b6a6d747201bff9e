-- ===== src/Server/Enforcement.antt =====
-- pkg/server/desired_state_enforcer.go, desiredStateEnforce: from the choice of a revision to the plan
-- that is applied. The application of a plan is Engine/Plan; what follows it is left out.
use aptomi.Base.{String, Option, none, some, List, [], if◌then◌else◌}
use aptomi.Base.Result.{Result, ok, err, ◌>>=◌}
use aptomi.Util.Params.{Value}
use aptomi.Lang.Policy.{Policy}
use aptomi.Engine.Actions.{Action}
use aptomi.Engine.Diff.{compare_and_produce_actions}
use aptomi.Engine.Plan.{Plan}
use aptomi.Engine.Resolution.{PolicyResolution}
use aptomi.Store.Results.{empty_result}
use aptomi.Store.Data.{Stored, Revision, waiting}
use aptomi.Store.Generic.{Generic}
use aptomi.Store.Policies.{CoreError, get_policy}
use aptomi.Store.Revisions.{RevisionError, update_revision, get_desired_state}
use aptomi.Store.ActualState.{ActualError, get_actual_state}
use aptomi.Server.Enforcer.{EnforceError, get_revision_for_processing}

pub data EnforcementError (E M : Type 0) : Type 0 where
  no_choice : EnforceError E M → EnforcementError E M
  not_reset : RevisionError E → EnforcementError E M
  policy_failed : CoreError E M → EnforcementError E M
  desired_state_failed : RevisionError E → EnforcementError E M
  actual_state_failed : ActualError E → EnforcementError E M

-- What a plan is applied with.
pub record Enforcement : Type 0 where
  pub revision : Revision
  pub policy : Option Policy
  pub desired_state : PolicyResolution
  pub actual_state : PolicyResolution
  pub plan : Plan Action

unfoldable pub reset : Revision → Revision
reset r = record r { status = waiting; result = empty_result }

-- The two lists are the orders in which the loops of the diff go through the instances.
module _ {S E M : Type 0} (generic : Generic Stored S E)
    (list : String → S → Result E (List Stored)) (delete : String → S → Result E S)
    (marshal : Value → Result M String) (order order' : List String) where
  abbrev in_case :
      {A F : Type 0} → (F → EnforcementError E M) → Result F A → Result (EnforcementError E M) A
  in_case f (ok a) = ok a
  in_case f (err e) = err (f e)

  unfoldable pub state_diff : Revision → PolicyResolution → PolicyResolution → Plan Action
  state_diff r desired actual =
      compare_and_produce_actions (if r.recalculate_all then [] else actual) desired order order'

  -- What is loaded for a revision, and its plan.
  unfoldable pub load_enforcement : Revision → S → Result (EnforcementError E M) Enforcement
  load_enforcement r s = in_case policy_failed (get_policy generic marshal r.policy_gen s) >>= λ p.
      in_case desired_state_failed (get_desired_state generic r s) >>= λ desired.
      in_case actual_state_failed (get_actual_state generic list delete s) >>= λ actual.
      ok (record {
        revision = r;
        policy = p.0;
        desired_state = desired;
        actual_state = actual;
        plan = state_diff r desired actual;
      })

  abbrev after_reset :
      S × Result (RevisionError E) Revision → S × Result (EnforcementError E M) (Option Enforcement)
  after_reset (s, err e) = (s, err (not_reset e))
  after_reset (s, ok r) = (s, load_enforcement r s >>= λ e. ok (some e))

  -- desiredStateEnforce up to the application; `none` when there is nothing to process.
  unfoldable pub prepare_enforcement : S → S × Result (EnforcementError E M) (Option Enforcement)
  prepare_enforcement s = elim (get_revision_for_processing generic marshal s) [
    | err e ↦ (s, err (no_choice e))
    | ok none ↦ (s, ok none)
    | ok (some r) ↦ after_reset (update_revision generic (reset r) s)
  ]
