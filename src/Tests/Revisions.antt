-- ===== src/Tests/Revisions.antt =====
-- pkg/runtime/store/core/revision.go, pkg/engine/policy_data.go and action_plan_apply_result.go: runs,
-- and the theorems at concrete inputs.
use aptomi.Base.{ℕ, ◌≡◌, refl, true, false, none, some, List, [], ◌∷◌, arith, ◌⊎◌, ◌≢◌, string_dec}
use aptomi.Base.Dict.{lookup}
use aptomi.Base.Lists.{In}
use aptomi.Util.Params.{str}
use aptomi.Lang.Objects.{Object, cluster}
use aptomi.Store.Results.{empty_result, set_total, done}
use aptomi.Store.Results.Counting.{
  adding_success, adding_failed, adding_skipped, serve_all, done-serve_all,
}
use aptomi.Store.Data.{
  PolicyData, Revision, RevisionStatus, waiting, in_progress, completed, add, remove,
}
use aptomi.Store.Data.Entries.{entry, entry-add, entry-remove}
use aptomi.Store.Revisions.{is_processed, pick, first_unprocessed, last_for_policy}
use aptomi.Store.Revisions.Search.{IsFirst, IsLast, first_unprocessed-cases, last_for_policy-cases}

abbrev revision_of : ℕ → ℕ → RevisionStatus → Revision
revision_of gen policy_gen status = record {
  generation = gen;
  policy_gen = policy_gen;
  status = status;
  created_at = 5;
  recalculate_all = false;
  result = empty_result;
  applied_at = 0;
}

abbrev revisions : List Revision
revisions =
    revision_of 1 1 completed
    ∷ revision_of 3 2 waiting
    ∷ revision_of 2 2 in_progress
    ∷ revision_of 4 3 waiting
    ∷ []

first_test : first_unprocessed revisions ≡ some (revision_of 2 2 in_progress)
unfolding first_unprocessed pick is_processed
first_test = refl

last_test : last_for_policy 2 revisions ≡ some (revision_of 3 2 waiting)
unfolding last_for_policy pick
last_test = refl

first_unprocessed-cases_test :
    ((first_unprocessed revisions ≡ none)
      × ((q : Revision) → In q revisions → is_processed q ≡ true))
    ⊎ ((r : Revision) × (first_unprocessed revisions ≡ some r) × IsFirst revisions r)
first_unprocessed-cases_test = first_unprocessed-cases revisions

last_for_policy-cases_test :
    ((last_for_policy 2 revisions ≡ none) × ((q : Revision) → In q revisions → q.policy_gen ≢ 2))
    ⊎ ((r : Revision) × (last_for_policy 2 revisions ≡ some r) × IsLast 2 revisions r)
last_for_policy-cases_test = last_for_policy-cases 2 revisions

done-serve_all_example :
    done (
      serve_all
        (adding_success ∷ adding_failed ∷ adding_skipped ∷ adding_success ∷ [])
        (set_total 4 empty_result))
    ≡ some (record { success = 2; failed = 1; skipped = 1; total = 4 })
done-serve_all_example =
    done-serve_all (adding_success ∷ adding_failed ∷ adding_skipped ∷ adding_success ∷ []) 4
      (omega arith)

abbrev west : Object
west = cluster (record {
  metadata = record { namespace = "main"; name = "west"; generation = 7; deleted = false };
  type = "kubernetes";
  labels = [];
  config = str "a";
})

abbrev east_data : PolicyData
east_data = record {
  generation = 3;
  updated_at = 10;
  updated_by = "alice";
  objects = ("main", ("cluster", ("east", 2) ∷ []) ∷ []) ∷ [];
}

entry-add_test : entry "main" "cluster" "west" (add west east_data) ≡ some 7
unfolding string_dec
entry-add_test = entry-add "main" "cluster" "west" west east_data

entry-remove_test :
    (entry "main" "cluster" "east" (remove west east_data).0 ≡ some 2)
    × ((remove west east_data).1 ≡ false)
unfolding string_dec entry lookup
entry-remove_test = entry-remove "main" "cluster" "east" west east_data
