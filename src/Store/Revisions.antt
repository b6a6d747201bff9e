-- ===== src/Store/Revisions.antt =====
-- pkg/runtime/store/core/revision.go, with revision_stats_updater.go: revisions in the store. A failed
-- type assertion is an error.
pub mod Search
use aptomi.Base.{
  ℕ, String, Bool, true, false, not, Option, none, some, List, [], ◌∷◌, nat_eq, ltb, if◌then◌else◌,
}
use aptomi.Base.Result.{Result, ok, err, ◌>>=◌}
use aptomi.Lang.Objects.{system_ns}
use aptomi.Engine.Resolution.{PolicyResolution}
use aptomi.Store.Generations.{first_gen, last_gen, next}
use aptomi.Store.Objects.{key_from_parts}
use aptomi.Store.Bolt.{Saved}
use aptomi.Store.Results.{ApplyResult, set_total, add_success, add_failed, add_skipped, done}
use aptomi.Store.Data.{
  Stored, policy_object, policy_data, revision, desired_state, component_instance, Revision,
  RevisionStatus, waiting, in_progress, completed, error, DesiredState, revision_key,
  new_revision_data, get_desired_state_name, generation_of,
}
use aptomi.Store.Generic.{Generic}

pub data RevisionError (E : Type 0) : Type 0 where
  from_store : E → RevisionError E
  unexpected_type : RevisionError E
  last_revision : RevisionError E → RevisionError E
  saving_revision : E → RevisionError E
  saving_desired_state : E → RevisionError E
  updating_revision : E → RevisionError E
  -- The panic of Done.
  not_all_processed : ApplyResult → RevisionError E

abbrev pub as_revision : {E : Type 0} → Option Stored → Result (RevisionError E) (Option Revision)
as_revision none = ok none
as_revision (some (revision r)) = ok (some r)
as_revision (some _) = err unexpected_type

abbrev pub as_revisions : {E : Type 0} → List Stored → Result (RevisionError E) (List Revision)
as_revisions [] = ok []
as_revisions (revision r ∷ rest) = as_revisions rest >>= λ rs. ok (r ∷ rs)
as_revisions (_ ∷ rest) = err unexpected_type

-- A revision that has been processed.
unfoldable pub is_processed : Revision → Bool
is_processed r = elim r.status [
  | waiting ↦ false
  | in_progress ↦ false
  | completed ↦ true
  | error ↦ true
]

-- `result == nil || better`
abbrev pub improve : (Revision → Revision → Bool) → Option Revision → Revision → Option Revision
improve better none r = some r
improve better (some f) r = some (if better r f then r else f)

-- A loop that looks for the best of the revisions that it does not skip.
unfoldable pub pick :
    (Revision → Bool)
    → (Revision → Revision → Bool)
    → Option Revision
    → List Revision
    → Option Revision
pick keep better found [] = found
pick keep better found (r ∷ rest) =
    pick keep better (if keep r then improve better found r else found) rest

-- The loop of GetLastRevisionForPolicy.
unfoldable pub last_for_policy : ℕ → List Revision → Option Revision
last_for_policy policy_gen =
    pick (λ r. nat_eq r.policy_gen policy_gen) (λ r f. ltb f.generation r.generation) none

-- The loop of GetAllRevisionsForPolicy.
unfoldable pub all_for_policy : ℕ → List Revision → List Revision
all_for_policy policy_gen [] = []
all_for_policy policy_gen (r ∷ rest) =
    let others = all_for_policy policy_gen rest in
    if nat_eq r.policy_gen policy_gen then r ∷ others else others

-- The loop of GetFirstUnprocessedRevision.
unfoldable pub first_unprocessed : List Revision → Option Revision
first_unprocessed = pick (λ r. not (is_processed r)) (λ r f. ltb r.generation f.generation) none

module _ {S E : Type 0} (generic : Generic Stored S E) where
  abbrev stored_ok : {A : Type 0} → Result E A → Result (RevisionError E) A
  stored_ok (ok a) = ok a
  stored_ok (err e) = err (from_store e)

  -- GetRevision
  unfoldable pub get_revision : ℕ → S → Result (RevisionError E) (Option Revision)
  get_revision gen s = stored_ok (generic.get_gen revision_key gen s) >>= as_revision

  unfoldable pub all_revisions : S → Result (RevisionError E) (List Revision)
  all_revisions s = stored_ok (generic.list_generations revision_key s) >>= as_revisions

  -- GetLastRevisionForPolicy
  unfoldable pub get_last_revision_for_policy : ℕ → S → Result (RevisionError E) (Option Revision)
  get_last_revision_for_policy policy_gen s =
      all_revisions s >>= λ rs. ok (last_for_policy policy_gen rs)

  -- GetAllRevisionsForPolicy
  unfoldable pub get_all_revisions_for_policy : ℕ → S → Result (RevisionError E) (List Revision)
  get_all_revisions_for_policy policy_gen s =
      all_revisions s >>= λ rs. ok (all_for_policy policy_gen rs)

  -- GetFirstUnprocessedRevision
  unfoldable pub get_first_unprocessed_revision : S → Result (RevisionError E) (Option Revision)
  get_first_unprocessed_revision s = all_revisions s >>= λ rs. ok (first_unprocessed rs)

  abbrev generation_after : Option Revision → ℕ
  generation_after none = first_gen
  generation_after (some r) = next r.generation

  -- The end of NewRevision.
  unfoldable pub save_desired_state :
      Revision → PolicyResolution → S → S × Result (RevisionError E) Revision
  save_desired_state r resolution s =
      elim (generic.save
        (desired_state (record { revision_gen = r.generation; resolution = resolution })) s) [
          | err e ↦ (s, err (saving_desired_state e))
          | ok saved ↦ (saved.bucket, ok r)
        ]

  -- NewRevision
  unfoldable pub new_revision :
      ℕ → PolicyResolution → Bool → ℕ → S → S × Result (RevisionError E) Revision
  new_revision policy_gen resolution recalculate_all now s = elim (get_revision last_gen s) [
    | err e ↦ (s, err (last_revision e))
    | ok current ↦
        let r = new_revision_data (generation_after current) policy_gen recalculate_all now in
        elim (generic.save (revision r) s) [
          | err e ↦ (s, err (saving_revision e))
          | ok saved ↦
              save_desired_state (record r { generation = generation_of saved.object }) resolution
                saved.bucket
        ]
  ]

  -- UpdateRevision, whose error makes the callers below panic.
  unfoldable pub update_revision : Revision → S → S × Result (RevisionError E) Revision
  update_revision r s = elim (generic.update (revision r) s) [
    | err e ↦ (s, err (updating_revision e))
    | ok saved ↦ (saved.bucket, ok (record r { generation = generation_of saved.object }))
  ]

  abbrev as_desired_state : Option Stored → Result (RevisionError E) PolicyResolution
  as_desired_state (some (desired_state d)) = ok d.resolution
  as_desired_state _ = err unexpected_type

  -- GetDesiredState
  unfoldable pub get_desired_state : Revision → S → Result (RevisionError E) PolicyResolution
  get_desired_state r s =
      stored_ok (
        generic.get (key_from_parts system_ns "desired-state" (get_desired_state_name r.generation))
          s)
      >>= as_desired_state

  -- The methods of RevisionResultUpdaterImpl.
  unfoldable pub revision_set_total : ℕ → Revision → S → S × Result (RevisionError E) Revision
  revision_set_total total r =
      update_revision (record r { result = set_total total r.result; status = in_progress })

  unfoldable pub revision_add_success : Revision → S → S × Result (RevisionError E) Revision
  revision_add_success r = update_revision (record r { result = add_success r.result })

  unfoldable pub revision_add_failed : Revision → S → S × Result (RevisionError E) Revision
  revision_add_failed r = update_revision (record r { result = add_failed r.result })

  unfoldable pub revision_add_skipped : Revision → S → S × Result (RevisionError E) Revision
  revision_add_skipped r = update_revision (record r { result = add_skipped r.result })

  unfoldable pub revision_done : ℕ → Revision → S → S × Result (RevisionError E) Revision
  revision_done now r s = elim (done r.result) [
    | none ↦ (s, err (not_all_processed r.result))
    | some _ ↦ update_revision (record r { status = completed; applied_at = now }) s
  ]
