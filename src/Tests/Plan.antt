-- ===== src/Tests/Plan.antt =====
-- The plan of two nodes, applied by one schedule.
use aptomi.Base.{
  ℕ, ◌+◌, ◌≤◌, String, ◌≡◌, ◌≢◌, refl, ap, true, false, Option, none, some, List, [], ◌∷◌, arith,
  ◌==◌, if◌then◌else◌, string_dec,
}
use aptomi.Base.Dict.{lookup, keys}
use aptomi.Base.Lists.{contains}
use aptomi.Engine.Plan.{
  Plan, Exec, next, acting, finished, negative_degree, queued_twice, init, set_phase, enqueue,
  release, act, step_at, step_node, Reach, here,
}
use aptomi.Engine.Plan.Invariant.{IsGraph}
use aptomi.Engine.Plan.Safety.{HasActed, step_node_safe, dependencies_first}
use aptomi.Engine.Plan.Counts.{number_of_actions, counts_at_end}
use aptomi.Engine.Plan.Work.{work_left, steps, steps-le-work}
use aptomi.Engine.Plan.Progress.{IsRanked, progress}
use aptomi.Engine.Plan.Schedule.{run_schedule, run_schedule-Reach}
use aptomi.Engine.Plan.Race.{two_nodes, runs_after_failure}

abbrev plan : Plan String
plan = two_nodes {E = String} "create" "update" "broken"

a-ne-b : ("a" == "b") ≡ false
unfolding string_dec
a-ne-b = refl

plan-nodup : contains ("b" ∷ []) "a" ≡ false
unfolding string_dec
plan-nodup = refl

plan-IsGraph : IsGraph plan
unfolding lookup keys
plan-IsGraph = record {
  nodup = (plan-nodup, (refl, tt));
  degrees = λ p h. ground (arith, a-ne-b);
  closed = λ b p h. ground (arith, a-ne-b);
}

-- Both nodes one after the other; the action of "a" fails, and that of "b" is skipped.
abbrev one_by_one : List (String × Option String)
one_by_one =
    ("a", none)
    ∷ ("a", none)
    ∷ ("a", some "broken")
    ∷ ("a", none)
    ∷ ("a", none)
    ∷ ("a", none)
    ∷ ("a", none)
    ∷ ("b", none)
    ∷ ("b", none)
    ∷ ("b", none)
    ∷ ("b", none)
    ∷ ("b", none)
    ∷ []

plan_program : Unit {0}
unfolding run_schedule step_node step_at set_phase enqueue release act init lookup keys string_dec
plan_program = tt

abbrev EndState : List (String × Option String) → Type 0
EndState schedule =
    (s : Exec String String) × (run_schedule plan schedule (init plan) ≡ next s)
    × (s.phase "a" ≡ finished)
    × (s.phase "b" ≡ finished)
    × (s.failed ≡ 1)
    × (s.success ≡ 0)
    × (s.skipped ≡ 1)

plan_end : EndState one_by_one
unfolding plan_program
plan_end = (_, refl, refl, refl, refl, refl, refl)

end_state : Exec String String
end_state = plan_end.0

end_reached : Reach plan end_state
unfolding end_state
end_reached = run_schedule-Reach plan one_by_one plan_end.1

all_finished : (b : String) → contains (keys plan) b ≡ true → end_state.phase b ≡ finished
unfolding end_state keys
all_finished b h = ground (
  arith,
  plan_end.2,
  plan_end.3,
  ap end_state.phase {x = b} {y = "a"},
  ap end_state.phase {x = b} {y = "b"},
)

step_node_safe_example :
    (step_node {E = String} plan "a" none (init plan) ≢ negative_degree)
    × (step_node {E = String} plan "a" none (init plan) ≢ queued_twice)
unfolding keys string_dec
step_node_safe_example = step_node_safe {E = String} plan plan-IsGraph "a" none here refl

dependencies_first_example : HasActed plan plan-IsGraph (end_state.phase "a")
unfolding keys lookup string_dec end_state
dependencies_first_example =
    dependencies_first plan plan-IsGraph "b" "a" end_reached refl refl refl
      (λ e. cc (plan_end.3, e))

counts_at_end_example :
    end_state.success + end_state.failed + end_state.skipped ≡ number_of_actions plan
unfolding keys
counts_at_end_example = counts_at_end plan (plan-nodup, (refl, tt)) end_reached all_finished

steps-le-work_example :
    steps plan end_reached + work_left plan end_state ≤ work_left {E = String} plan (init plan)
steps-le-work_example = steps-le-work plan end_reached

abbrev rank : String → ℕ
rank p = if p == "a" then 0 else 1

plan-IsRanked : IsRanked plan rank
unfolding lookup keys
plan-IsRanked b p h = ground (arith, a-ne-b)

progress_example :
    (b : String) × (s' : Exec String String) × (contains (keys plan) b ≡ true)
    × (step_node plan b none (init plan) ≡ next s')
unfolding keys lookup string_dec init
progress_example = progress plan plan-IsGraph rank "a" none plan-IsRanked here refl (λ e. cc)

runs_after_failure_example :
    (s : Exec String String) × Reach plan s
    × (s.was_error "a" ≡ some "broken")
    × (s.phase "b" ≡ acting [] none)
    × (s.failed ≡ 1)
    × (s.success ≡ 1)
    × (s.skipped ≡ 0)
runs_after_failure_example = runs_after_failure "create" "update" "broken"
