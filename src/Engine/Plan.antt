-- ===== src/Engine/Plan.antt =====
-- pkg/engine/apply/action: action_graph.go, action_plan.go and action_plan_apply_result.go. A plan's
-- nodes are applied by one goroutine each. `step_node` is the next step of a node's goroutine that
-- other goroutines can see, so every interleaving of the goroutines is a sequence of such steps.
pub mod Invariant
pub mod Building
pub mod Safety
pub mod Counts
pub mod Work
pub mod Progress
pub mod Schedule
pub mod Race
use aptomi.Base.{
  ℕ, zero, suc, ◌+◌, String, ◌≡◌, Option, none, some, List, [], ◌∷◌, ◌++◌, ◌==◌, if◌then◌else◌,
  Bool, true,
}
use aptomi.Base.Dict.{Dict, lookup, keys}
use aptomi.Base.Lists.{length, contains}

module _ (A : Type 0) where
  -- Before and BeforeRev point to nodes of the plan, which their keys stand for.
  pub record GraphNode : Type 0 where
    pub key : String
    pub before : List String
    pub before_rev : List String
    pub actions : List A

  abbrev pub Plan : Type 0
  Plan = Dict GraphNode

module _ {A : Type 0} where
  abbrev pub new_graph_node : String → GraphNode A
  new_graph_node key = record { key = key; before = []; before_rev = []; actions = [] }

  abbrev pub node : Plan A → String → GraphNode A
  node plan k = elim (lookup k plan) [ none ↦ new_graph_node k | some n ↦ n ]

-- Where a node's goroutine is. An error is given by `E`.
module _ (A E : Type 0) where
  pub data Phase : Type 0 where
    -- The node waits for its degree to become 0.
    waiting : Phase
    -- It stands in the queue.
    queued : Phase
    -- Its goroutine has been started and has not read wasError.
    started : Phase
    -- The actions that are left, and foundErr.
    acting : List A → Option E → Phase
    -- The nodes of BeforeRev that are left, and foundErr.
    releasing : List String → Option E → Phase
    -- The degree of the first node has been decremented, and wasError of it is still to be set.
    marking : String → List String → E → Phase
    finished : Phase

  pub record Exec : Type 0 where
    pub deg : String → ℕ
    pub was_error : String → Option E
    pub phase : String → Phase
    pub success : ℕ
    pub failed : ℕ
    pub skipped : ℕ

  pub data Outcome : Type 0 where
    blocked : Outcome
    negative_degree : Outcome
    -- A node that no longer waits is put into the queue: its actions would run twice.
    queued_twice : Outcome
    next : Exec → Outcome

abbrev pub update {ℓ} : {V : Type ℓ} → (String → V) → String → V → String → V
update f k v = λ x. if x == k then v else f x

module _ {A E : Type 0} (plan : Plan A) where
  -- The loop that initialises the degrees and the queue.
  unfoldable pub init : Exec A E
  init = record {
    deg = λ k. length (node plan k).before;
    was_error = λ _. none;
    phase = λ k. elim (node plan k).before [ [] ↦ queued | _ ↦ waiting ];
    success = 0;
    failed = 0;
    skipped = 0;
  }

  unfoldable pub set_phase : String → Phase A E → Exec A E → Exec A E
  set_phase k ph s = record s { phase = update s.phase k ph }

  -- After a decrement to `d`: the node goes into the queue at 0.
  unfoldable pub enqueue : String → ℕ → Exec A E → Outcome A E
  unfolding set_phase
  enqueue p (suc d) s = next s
  enqueue p zero s = elim (s.phase p) [
    | waiting ↦ next (set_phase p queued s)
    | queued ↦ queued_twice
    | started ↦ queued_twice
    | acting _ _ ↦ queued_twice
    | releasing _ _ ↦ queued_twice
    | marking _ _ _ ↦ queued_twice
    | finished ↦ queued_twice
  ]

  -- The first critical section of the loop over BeforeRev.
  unfoldable pub release : String → ℕ → Exec A E → Outcome A E
  unfolding enqueue
  release p zero s = negative_degree
  release p (suc d) s = enqueue p d (record s { deg = update s.deg p d })

  abbrev pub after_release : String → List String → Option E → Phase A E
  after_release p ps none = releasing ps none
  after_release p ps (some e) = marking p ps e

  abbrev pub then_phase : String → Phase A E → Outcome A E → Outcome A E
  then_phase b ph (next s) = next (set_phase b ph s)
  then_phase b ph other = other

  abbrev pub mark_own : String → Option E → Exec A E → Exec A E
  mark_own b none s = s
  mark_own b (some e) s = record s { was_error = update s.was_error b (some e) }

  -- One action: `result` is what the apply function returns.
  unfoldable pub act : String → List A → Option E → Option E → Exec A E → Exec A E
  unfolding set_phase
  act b rest (some e) result s =
      set_phase b (acting rest (some e)) (record s { skipped = s.skipped + 1 })
  act b rest none none s = set_phase b (acting rest none) (record s { success = s.success + 1 })
  act b rest none (some e) s =
      set_phase b (acting rest (some e)) (record s { failed = s.failed + 1 })

  unfoldable pub step_at : String → Option E → Exec A E → Phase A E → Outcome A E
  unfolding set_phase
  step_at b result s waiting = blocked
  step_at b result s queued = next (set_phase b started s)
  step_at b result s started = next (set_phase b (acting (node plan b).actions (s.was_error b)) s)
  step_at b result s (acting (a ∷ rest) found) = next (act b rest found result s)
  step_at b result s (acting [] found) =
      next (set_phase b (releasing (node plan b).before_rev found) (mark_own b found s))
  step_at b result s (releasing (p ∷ ps) found) =
      then_phase b (after_release p ps found) (release p (s.deg p) s)
  step_at b result s (releasing [] found) = next (set_phase b finished s)
  step_at b result s (marking p ps e) =
      next (
        set_phase b (releasing ps (some e))
          (record s { was_error = update s.was_error p (some e) }))
  step_at b result s finished = blocked

  -- The next step of the goroutine of node `b`; `result` is what an action returns, if one is run.
  unfoldable pub step_node : String → Option E → Exec A E → Outcome A E
  step_node b result s = step_at b result s (s.phase b)

  -- Any node's goroutine may take the next step, with any result of the action.
  pub data Step (s s' : Exec A E) : Type 0 where
    step :
        (b : String) (result : Option E)
        → contains (keys plan) b ≡ true
        → step_node b result s ≡ next s'
        → Step s s'

  pub data Reach : Exec A E → Type 0 where
    here : Reach init
    more : {s s' : Exec A E} → Reach s → Step s s' → Reach s'
