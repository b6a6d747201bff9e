-- ===== src/Store/Initial.antt =====
-- pkg/runtime/store/core/policy.go: InitPolicy, on the first run.
use aptomi.Base.{[]}
use aptomi.Base.Result.{Result, ok, err}
use aptomi.Base.{ℕ, false}
use aptomi.Store.Generations.{first_gen}
use aptomi.Store.Data.{PolicyData, Stored, policy_data, Revision, generation_of}
use aptomi.Store.Generic.{Generic}
use aptomi.Store.Revisions.{RevisionError, new_revision}

pub data InitError (E : Type 0) : Type 0 where
  saving_policy : E → InitError E
  first_revision : RevisionError E → InitError E

abbrev pub initial_policy_data : ℕ → PolicyData
initial_policy_data now = record {
  generation = first_gen;
  updated_at = now;
  updated_by = "aptomi";
  objects = [];
}

module _ {S E : Type 0} (generic : Generic Stored S E) where
  abbrev initialized : S × Result (RevisionError E) Revision → S × Result (InitError E) Revision
  initialized (s, ok r) = (s, ok r)
  initialized (s, err e) = (s, err (first_revision e))

  -- InitPolicy, with the first revision.
  unfoldable pub init_policy : ℕ → S → S × Result (InitError E) Revision
  init_policy now s = elim (generic.save (policy_data (initial_policy_data now)) s) [
    | err e ↦ (s, err (saving_policy e))
    | ok saved ↦
        initialized (new_revision generic (generation_of saved.object) [] false now saved.bucket)
  ]
