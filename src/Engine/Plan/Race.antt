-- ===== src/Engine/Plan/Race.antt =====
-- The gap between putting a node into the queue and recording the error of the node it waited for.
use aptomi.Base.{◌≡◌, refl, String, Option, none, some, List, [], ◌∷◌, string_dec}
use aptomi.Base.Dict.{lookup, keys}
use aptomi.Engine.Plan.Schedule.{run_schedule, run_schedule-Reach}
use aptomi.Engine.Plan.{
  Plan, Exec, Outcome, acting, next, init, set_phase, enqueue, release, act, step_at, step_node,
  Reach,
}

module _ {A E : Type 0} (a b : A) (e : E) where
  -- Node "b" waits for node "a"; each has one action.
  abbrev pub two_nodes : Plan A
  two_nodes =
      ("a", record { key = "a"; before = []; before_rev = "b" ∷ []; actions = a ∷ [] })
      ∷ ("b", record { key = "b"; before = "a" ∷ []; before_rev = []; actions = b ∷ [] })
      ∷ []

  abbrev moves : List (String × Option E)
  moves =
      ("a", none)
      ∷ ("a", none)
      ∷ ("a", some e)
      ∷ ("a", none)
      ∷ ("a", none)
      ∷ ("b", none)
      ∷ ("b", none)
      ∷ ("b", none)
      ∷ []

  abbrev EndsAt : Outcome A E → Type 0
  EndsAt o =
      (s : Exec A E) × (o ≡ next s)
      × (s.was_error "a" ≡ some e)
      × (s.phase "b" ≡ acting [] none)
      × (s.failed ≡ 1)
      × (s.success ≡ 1)
      × (s.skipped ≡ 0)

  run_moves : EndsAt (run_schedule two_nodes moves (init two_nodes))
  unfolding run_schedule step_node step_at set_phase enqueue release act init lookup keys string_dec
  run_moves = (_, refl, refl, refl, refl, refl, refl)

  -- For any two actions and any error `e` there is an interleaving of the two nodes that reaches a
  -- state in which wasError of "a" is `e`, while the goroutine of "b", which depends on "a", has gone
  -- through its actions with no error found, and one action has failed, one has succeeded and none has
  -- been skipped.
  pub runs_after_failure :
      (s : Exec A E) × Reach two_nodes s
      × (s.was_error "a" ≡ some e)
      × (s.phase "b" ≡ acting [] none)
      × (s.failed ≡ 1)
      × (s.success ≡ 1)
      × (s.skipped ≡ 0)
  runs_after_failure =
      let (s, ends, error, phase, failed, success, skipped) = run_moves in
      (s, run_schedule-Reach two_nodes moves ends, error, phase, failed, success, skipped)
