-- ===== src/Tests/Server.antt =====
-- pkg/server/desired_state_enforcer.go: a run, and the theorem on the choice of a revision.
use aptomi.Base.{none, ℕ, ◌+◌, ◌≡◌, refl, false, string_dec, some, List, [], ◌∷◌}
use aptomi.Base.Result.{ok}
use aptomi.Store.Data.{Stored, Revision, RevisionStatus, completed, waiting, revision}
use aptomi.Store.Objects.{key_for, key_from_parts}
use aptomi.Store.Policies.{get_policy, get_policy_data, get_policy_from_data, load_namespaces}
use aptomi.Store.Revisions.{
  get_first_unprocessed_revision, get_last_revision_for_policy, all_revisions, first_unprocessed,
  pick, is_processed, last_for_policy,
}
use aptomi.Server.Enforcer.{get_revision_for_processing, needs_retry, to_retry}
use aptomi.Server.Enforcement.{prepare_enforcement}
use aptomi.Store.Initial.{init_policy}
use aptomi.Store.Revisions.{new_revision, get_revision, save_desired_state}
use aptomi.Store.Data.{new_revision_data}
use aptomi.Tests.History.{log, marshal, no_policy, with_key, find}

abbrev revision_of : ℕ → ℕ → RevisionStatus → ℕ → Revision
revision_of gen policy_gen status failed = record {
  generation = gen;
  policy_gen = policy_gen;
  status = status;
  created_at = 5;
  recalculate_all = false;
  result = record { success = 2; failed = failed; skipped = 0; total = 2 + failed };
  applied_at = 6;
}

abbrev failed_revision : Revision
failed_revision = revision_of 2 1 completed 1

-- The last policy has generation 1.
abbrev processed : List Stored
processed = revision failed_revision ∷ revision (revision_of 1 1 completed 0) ∷ no_policy

waiting_test :
    get_revision_for_processing log marshal (revision (revision_of 3 1 waiting 0) ∷ processed)
    ≡ ok (some (revision_of 3 1 waiting 0))
unfolding get_revision_for_processing get_first_unprocessed_revision get_last_revision_for_policy
    all_revisions with_key string_dec key_for key_from_parts get_policy get_policy_data
    get_policy_from_data load_namespaces find first_unprocessed last_for_policy pick is_processed
    needs_retry to_retry
waiting_test = refl

nothing_test :
    prepare_enforcement log (λ _ _. ok []) (λ _ s. ok s) marshal [] [] no_policy
    ≡ (no_policy, ok none)
unfolding prepare_enforcement get_revision_for_processing get_first_unprocessed_revision
    get_last_revision_for_policy all_revisions with_key string_dec key_for key_from_parts get_policy
    get_policy_data get_policy_from_data load_namespaces find first_unprocessed last_for_policy pick
    is_processed needs_retry to_retry
nothing_test = refl

-- The store counts its objects, so that the first revision has the generation 2.
init_test :
    (init_policy log 5 []).1 ≡ ok (record (new_revision_data 1 1 false 5) { generation = 2 })
unfolding init_policy new_revision get_revision save_desired_state new_revision_data find string_dec
    key_for key_from_parts
init_test = refl
