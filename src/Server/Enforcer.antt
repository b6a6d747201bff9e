-- ===== src/Server/Enforcer.antt =====
-- pkg/server/desired_state_enforcer.go: which revision the loop that enforces the desired state takes
-- next.
pub mod Choice
use aptomi.Base.{
  ℕ, String, Bool, true, false, ◌&&◌, ◌||◌, Option, none, some, List, ltb, if◌then◌else◌,
}
use aptomi.Base.Result.{Result, ok, err}
use aptomi.Util.Params.{Value}
use aptomi.Store.Generations.{last_gen}
use aptomi.Store.Data.{Stored, Revision, RevisionStatus, waiting, in_progress, completed, error}
use aptomi.Store.Generic.{Generic}
use aptomi.Store.Policies.{CoreError, get_policy}
use aptomi.Store.Revisions.{
  RevisionError, get_first_unprocessed_revision, get_last_revision_for_policy,
}

pub data EnforceError (E M : Type 0) : Type 0 where
  first_unprocessed_failed : RevisionError E → EnforceError E M
  latest_policy_failed : CoreError E M → EnforceError E M
  latest_revision_failed : RevisionError E → EnforceError E M

-- The revision ended in an error, or some of its actions failed.
unfoldable pub needs_retry : Revision → Bool
needs_retry r = elim r.status [
  | waiting ↦ false
  | in_progress ↦ false
  | completed ↦ ltb 0 r.result.failed
  | error ↦ true
]

unfoldable pub to_retry : Option Revision → Option Revision
to_retry none = none
to_retry (some r) = if needs_retry r then some r else none

module _ {S E M : Type 0} (generic : Generic Stored S E) (marshal : Value → Result M String) where
  unfoldable pub get_revision_for_processing : S → Result (EnforceError E M) (Option Revision)
  get_revision_for_processing s = elim (get_first_unprocessed_revision generic s) [
    | err e ↦ err (first_unprocessed_failed e)
    | ok (some r) ↦ ok (some r)
    | ok none ↦ elim (get_policy generic marshal last_gen s) [
      | err e ↦ err (latest_policy_failed e)
      | ok (policy, policy_gen) ↦ elim (get_last_revision_for_policy generic policy_gen s) [
        | err e ↦ err (latest_revision_failed e)
        | ok last ↦ ok (to_retry last)
      ]
    ]
  ]
