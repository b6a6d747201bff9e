-- ===== src/Engine/Plan/Schedule.antt =====
-- Runs of a plan by a given schedule: which goroutine steps, and what its action returns.
use aptomi.Base.{
  String, ◌≡◌, refl, subst, true, inl, inr, Option, List, [], ◌∷◌, Bool-cases, if◌then◌else◌,
}
use aptomi.Base.Dict.{keys}
use aptomi.Base.Lists.{contains}
use aptomi.Engine.Plan.{
  Plan, Exec, Outcome, blocked, negative_degree, queued_twice, next, init, step_node, step, Reach,
  here, more,
}

abbrev then_run : {A E : Type 0} → (Exec A E → Outcome A E) → Outcome A E → Outcome A E
then_run f (next s) = f s
then_run f blocked = blocked
then_run f negative_degree = negative_degree
then_run f queued_twice = queued_twice

module _ {A E : Type 0} (plan : Plan A) where
  -- A schedule that names no node of the plan is blocked.
  unfoldable pub run_schedule : List (String × Option E) → Exec A E → Outcome A E
  run_schedule [] s = next s
  run_schedule ((b, result) ∷ rest) s =
      let later = then_run (run_schedule rest) (step_node plan b result s) in
      if contains (keys plan) b then later else blocked

  abbrev AtNext : Outcome A E → Type 0
  AtNext (next s) = Reach plan s
  AtNext _ = Unit

  then_run-Reach :
      (rest : List (String × Option E)) (o : Outcome A E)
      → AtNext o
      → ((mid : Exec A E) → Reach plan mid → AtNext (run_schedule rest mid))
      → AtNext (then_run (run_schedule rest) o)
  then_run-Reach rest (next s) r later = later s r
  then_run-Reach rest blocked r later = tt
  then_run-Reach rest negative_degree r later = tt
  then_run-Reach rest queued_twice r later = tt

  at_next :
      (s : Exec A E) (b : String) (result : Option E) (o : Outcome A E)
      → Reach plan s
      → contains (keys plan) b ≡ true
      → step_node plan b result s ≡ o
      → AtNext o
  at_next s b result (next s') r inside e = more r (step b result inside e)
  at_next s b result blocked r inside e = tt
  at_next s b result negative_degree r inside e = tt
  at_next s b result queued_twice r inside e = tt

  run-Reach :
      (schedule : List (String × Option E)) (s : Exec A E)
      → Reach plan s
      → AtNext (run_schedule schedule s)
  unfolding run_schedule
  run-Reach [] s r = r
  run-Reach ((b, result) ∷ rest) s r = elim (Bool-cases (contains (keys plan) b)) [
    | inr absent ↦ rw absent tt
    | inl inside ↦ rw inside (
        then_run-Reach rest (step_node plan b result s)
          (at_next s b result (step_node plan b result s) r inside refl) (run-Reach rest))
  ]

  pub run_schedule-Reach :
      (schedule : List (String × Option E)) {s : Exec A E}
      → run_schedule schedule (init plan) ≡ next s
      → Reach plan s
  run_schedule-Reach schedule e = subst AtNext e (run-Reach schedule (init plan) here)
