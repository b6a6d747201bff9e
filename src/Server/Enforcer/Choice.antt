-- ===== src/Server/Enforcer/Choice.antt =====
-- pkg/server/desired_state_enforcer.go: the revision that is taken, by the revisions in the store.
use aptomi.Base.{ℕ, String, true, false, ◌≡◌, ◌≢◌, ◌⊎◌, Option, none, some, List}
use aptomi.Base.Lists.{In}
use aptomi.Base.Result.{Result, ok}
use aptomi.Util.Params.{Value}
use aptomi.Lang.Policy.{Policy}
use aptomi.Store.Generations.{last_gen}
use aptomi.Store.Data.{Stored, Revision}
use aptomi.Store.Generic.{Generic}
use aptomi.Store.Policies.{get_policy}
use aptomi.Store.Revisions.{is_processed}
use aptomi.Store.Revisions.Search.{IsLast}
use aptomi.Server.Enforcer.{needs_retry}

-- What is taken when all revisions have been processed: the last one for the policy, if it is to be
-- tried again.
abbrev pub IsRetry : ℕ → List Revision → Option Revision → Type 0
IsRetry policy_gen rs none =
    ((q : Revision) → In q rs → q.policy_gen ≢ policy_gen)
    ⊎ ((r : Revision) × IsLast policy_gen rs r × (needs_retry r ≡ false))
IsRetry policy_gen rs (some r) = IsLast policy_gen rs r × (needs_retry r ≡ true)

module _ {S E M : Type 0} (generic : Generic Stored S E) (marshal : Value → Result M String) where
  -- The last policy, when all revisions have been processed.
  pub record AllProcessed (s : S) (rs : List Revision) (result : Option Revision) : Type 0 where
    pub processed : (q : Revision) → In q rs → is_processed q ≡ true
    pub policy : Option Policy
    pub policy_gen : ℕ
    pub last_policy : get_policy generic marshal last_gen s ≡ ok (policy, policy_gen)
    pub retry : IsRetry policy_gen rs result
