-- ===== src/Engine/Plan/Progress.antt =====
-- No run of a plan without cycles gets stuck.
use aptomi.Base.{ℕ, zero, suc, ◌<◌, String, ◌≡◌, ◌≢◌, refl, ap, true, Option, [], ◌∷◌, arith}
use aptomi.Base.Counting.{count, total_positive, contains-count}
use aptomi.Base.Dict.{keys}
use aptomi.Base.Lists.{contains}
use aptomi.Engine.Plan.{
  Plan, node, Phase, Exec, Outcome, waiting, queued, started, acting, releasing, marking, finished,
  blocked, negative_degree, queued_twice, next, update, set_phase, enqueue, release, after_release,
  then_phase, step_at, step_node, Reach,
}
use aptomi.Engine.Plan.Invariant.{IsGraph, unreleased, owed, Inv}
use aptomi.Engine.Plan.Safety.{Reach-Inv, step_node_safe}

-- A rank that grows from a node to the nodes that wait for it: the graph has no cycle.
abbrev pub IsRanked : {A : Type 0} → Plan A → (String → ℕ) → Type 0
IsRanked plan rank = (b p : String) → contains (node plan b).before_rev p ≡ true → rank b < rank p

module _ {A E : Type 0} (plan : Plan A) (graph : IsGraph plan) where
  abbrev CanStep : Phase A E → Type 0
  CanStep waiting = ⊥
  CanStep finished = ⊥
  CanStep _ = Unit

  Found : Exec A E → Type 0
  Found s = (b : String) × (contains (keys plan) b ≡ true) × CanStep (s.phase b)

  module _ (s : Exec A E) (inv : Inv plan s.deg s.phase) (rank : String → ℕ)
      (ranked : IsRanked plan rank) where
    -- Below a waiting node there is one that can take a step.
    descend :
        (b p : String) (ph : Phase A E)
        → (s.phase b ≡ waiting → Found s)
        → contains (keys plan) b ≡ true
        → 0 < owed plan s.phase p b
        → s.phase b ≡ ph
        → Found s
    unfolding Found
    descend b p waiting deeper b_in pos at = deeper at
    descend b p finished deeper b_in pos at =
        absurd (omega (arith, ap (λ z. count p (unreleased plan b z)) at))
    descend b p _ deeper b_in pos at = (b, b_in, rw at tt)

    find_step :
        (n : ℕ) (p : String)
        → rank p < n
        → contains (keys plan) p ≡ true
        → s.phase p ≡ waiting
        → Found s
    find_step zero p below p_in w = absurd (omega arith)
    find_step (suc n) p below p_in w =
        let (b, b_in, pos) =
          total_positive (owed plan s.phase p) (keys plan)
            (omega (arith, inv.positive p p_in w, inv.degrees p p_in)) in
        let edge = inv.within b p (contains-count p _ pos) in
        descend b p (s.phase b) (find_step n b (omega (arith, ranked b p edge)) b_in) b_in pos refl

    start_from :
        (p : String) (ph : Phase A E)
        → contains (keys plan) p ≡ true
        → s.phase p ≡ ph
        → ph ≢ finished
        → Found s
    unfolding Found
    start_from p waiting p_in at open_node = find_step (suc (rank p)) p (omega arith) p_in at
    start_from p finished p_in at open_node = absurd (open_node refl)
    start_from p _ p_in at open_node = (p, p_in, rw at tt)

  enqueue-ne-blocked :
      (b p : String) (ph at_p : Phase A E) (s : Exec A E)
      → s.phase p ≡ at_p
      → then_phase plan b ph (enqueue plan p 0 s) ≢ blocked
  unfolding enqueue set_phase
  enqueue-ne-blocked b p ph at_p s at e = ground arith

  release-ne-blocked :
      (b p : String) (ph : Phase A E) (n : ℕ) (s : Exec A E)
      → then_phase plan b ph (release plan p n s) ≢ blocked
  unfolding release enqueue
  release-ne-blocked b p ph zero s e = cc
  release-ne-blocked b p ph (suc (suc n)) s e = cc
  release-ne-blocked b p ph (suc zero) s e =
      enqueue-ne-blocked b p ph (s.phase p) (record s { deg = update s.deg p 0 }) refl e

  CanStep-ne-blocked :
      (s : Exec A E) (b : String) (result : Option E) (ph : Phase A E)
      → CanStep ph
      → step_at plan b result s ph ≢ blocked
  unfolding step_at
  CanStep-ne-blocked s b result waiting can e = can
  CanStep-ne-blocked s b result finished can e = can
  CanStep-ne-blocked s b result queued can e = cc
  CanStep-ne-blocked s b result started can e = cc
  CanStep-ne-blocked s b result (acting [] found) can e = cc
  CanStep-ne-blocked s b result (acting (a ∷ rest) found) can e = cc
  CanStep-ne-blocked s b result (releasing [] found) can e = cc
  CanStep-ne-blocked s b result (releasing (p ∷ ps) found) can e =
      release-ne-blocked b p (after_release plan p ps found) (s.deg p) s e
  CanStep-ne-blocked s b result (marking p ps x) can e = cc

  Next : Outcome A E → Type 0
  Next o = (s' : Exec A E) × (o ≡ next s')

  proceed : (o : Outcome A E) → o ≢ blocked → o ≢ negative_degree → o ≢ queued_twice → Next o
  unfolding Next
  proceed blocked a b c = absurd (a refl)
  proceed negative_degree a b c = absurd (b refl)
  proceed queued_twice a b c = absurd (c refl)
  proceed (next s') a b c = (s', refl)

  -- While some node has not finished, some node's goroutine can take a step, whatever its action
  -- returns, if the graph of the plan has no cycle.
  pub progress :
      {s : Exec A E} (rank : String → ℕ) (p : String) (result : Option E)
      → IsRanked plan rank
      → Reach plan s
      → contains (keys plan) p ≡ true
      → s.phase p ≢ finished
      → (b : String) × (s' : Exec A E) × (contains (keys plan) b ≡ true)
        × (step_node plan b result s ≡ next s')
  unfolding Found Next step_node
  progress {s} rank p result ranked r p_in open_node =
      let (b, b_in, can) =
        start_from s (Reach-Inv plan graph r) rank ranked p (s.phase p) p_in refl open_node in
      let safe = step_node_safe plan graph b result r b_in in
      let (s', e) =
        proceed (step_node plan b result s) (CanStep-ne-blocked s b result (s.phase b) can) safe.0
          safe.1 in
      (b, s', b_in, e)
