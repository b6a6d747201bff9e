-- ===== src/Engine/Plan/Safety.antt =====
-- What holds in every state that any interleaving of the goroutines reaches.
use aptomi.Base.{
  ℕ, zero, suc, String, ◌≡◌, ◌≢◌, refl, ap, subst, ◌∙◌, true, Option, none, some, List, [], ◌∷◌,
  arith,
}
use aptomi.Base.Counting.{count, total-le, total-ext, count-contains}
use aptomi.Base.Dict.{keys}
use aptomi.Base.Lists.{contains}
use aptomi.Engine.Plan.{
  Plan, node, Phase, Exec, Outcome, waiting, queued, started, acting, releasing, marking, finished,
  blocked, negative_degree, queued_twice, next, init, set_phase, enqueue, release, then_phase, act,
  step_at, step_node, Step, step, Reach, here, more,
}
use aptomi.Engine.Plan.Invariant.{
  IsGraph, unreleased, owed, Inv, keep-Inv, release_positive, target_waits, release_more,
  release_last,
}

module _ {A E : Type 0} (plan : Plan A) (graph : IsGraph plan) where
  abbrev SoundOutcome : Outcome A E → Type 0
  SoundOutcome blocked = Unit
  SoundOutcome negative_degree = ⊥
  SoundOutcome queued_twice = ⊥
  SoundOutcome (next s) = Inv plan s.deg s.phase

  module _ (s : Exec A E) (b : String) (inv : Inv plan s.deg s.phase)
      (in_plan : contains (keys plan) b ≡ true) where
    act_sound :
        (rest : List A) (found result : Option E) (a : A)
        → s.phase b ≡ acting (a ∷ rest) found
        → SoundOutcome (next (act plan b rest found result s))
    unfolding act set_phase
    act_sound rest (some e) result a at =
        keep-Inv plan s.deg s.phase b (acting rest (some e)) inv (λ w. cc) (λ w. cc) (rw at)
    act_sound rest none none a at =
        keep-Inv plan s.deg s.phase b (acting rest none) inv (λ w. cc) (λ w. cc) (rw at)
    act_sound rest none (some e) a at =
        keep-Inv plan s.deg s.phase b (acting rest (some e)) inv (λ w. cc) (λ w. cc) (rw at)

    release_sound :
        (p : String) (ps : List String) (found : Option E) (ph : Phase A E) (n : ℕ)
        → s.phase b ≡ releasing (p ∷ ps) found
        → s.deg p ≡ n
        → ph ≢ waiting
        → unreleased plan b ph ≡ ps
        → SoundOutcome (then_phase plan b ph (release plan p n s))
    unfolding release enqueue set_phase
    release_sound p ps found ph zero at d awake rest =
        absurd (omega (arith, release_positive plan s.deg s.phase b p ps inv graph in_plan (rw at)))
    release_sound p ps found ph (suc (suc n)) at d awake rest =
        release_more plan s.deg s.phase b p ps inv graph in_plan (rw at) ph n d (λ w. cc) awake rest
    release_sound p ps found ph (suc zero) at d awake rest =
        rw (target_waits plan s.deg s.phase b p ps inv graph in_plan (rw at)) (
          release_last plan s.deg s.phase b p ps inv graph in_plan (rw at) ph d (λ w. cc) awake
            rest)

    step_at_sound :
        (result : Option E) (ph : Phase A E)
        → s.phase b ≡ ph
        → SoundOutcome (step_at plan b result s ph)
    unfolding step_at set_phase
    step_at_sound result waiting at = tt
    step_at_sound result finished at = tt
    step_at_sound result queued at =
        keep-Inv plan s.deg s.phase b started inv (λ w. cc) (λ w. cc) (rw at)
    step_at_sound result started at =
        keep-Inv plan s.deg s.phase b (acting (node plan b).actions (s.was_error b)) inv (λ w. cc)
          (λ w. cc) (rw at)
    step_at_sound result (acting (a ∷ rest) found) at = act_sound rest found result a at
    step_at_sound result (acting [] none) at =
        keep-Inv plan s.deg s.phase b (releasing (node plan b).before_rev none) inv (λ w. cc)
          (λ w. cc) (rw at)
    step_at_sound result (acting [] (some e)) at =
        keep-Inv plan s.deg s.phase b (releasing (node plan b).before_rev (some e)) inv (λ w. cc)
          (λ w. cc) (rw at)
    step_at_sound result (releasing [] found) at =
        keep-Inv plan s.deg s.phase b finished inv (λ w. cc) (λ w. cc) (rw at)
    step_at_sound result (releasing (p ∷ ps) none) at =
        release_sound p ps none (releasing ps none) (s.deg p) at refl (λ w. cc) refl
    step_at_sound result (releasing (p ∷ ps) (some e)) at =
        release_sound p ps (some e) (marking p ps e) (s.deg p) at refl (λ w. cc) refl
    step_at_sound result (marking p ps e) at =
        keep-Inv plan s.deg s.phase b (releasing ps (some e)) inv (λ w. cc) (λ w. cc) (rw at)

  init-Inv : Inv plan (init {E = E} plan).deg (init {E = E} plan).phase
  unfolding init
  init-Inv = record {
    degrees = λ p h. graph.degrees p h ∙ total-ext _ _ (keys plan) (λ x. ground arith);
    positive = λ p h e. ground arith;
    waits = λ p h pos. ground arith;
    within = λ x p h. ground arith;
  }

  Step-Inv : {s s' : Exec A E} → Inv plan s.deg s.phase → Step plan s s' → Inv plan s'.deg s'.phase
  unfolding step_node
  Step-Inv {s} inv (step b result in_plan e) =
      subst SoundOutcome e (step_at_sound s b inv in_plan result (s.phase b) refl)

  pub Reach-Inv : {s : Exec A E} → Reach plan s → Inv plan s.deg s.phase
  Reach-Inv here = init-Inv
  Reach-Inv (more r st) = Step-Inv (Reach-Inv r) st

  -- In no state that an interleaving of a well-formed plan reaches does the next step of the
  -- goroutine of one of its nodes decrement a degree below 0 (which panics), or queue a node a second
  -- time.
  pub step_node_safe :
      {s : Exec A E} (b : String) (result : Option E)
      → Reach plan s
      → contains (keys plan) b ≡ true
      → (step_node plan b result s ≢ negative_degree) × (step_node plan b result s ≢ queued_twice)
  unfolding step_node
  step_node_safe {s} b result r in_plan =
      let sound = step_at_sound s b (Reach-Inv r) in_plan result (s.phase b) refl in
      (λ e. subst SoundOutcome e sound, λ e. subst SoundOutcome e sound)

  -- The node has run (or skipped) all of its actions.
  abbrev pub HasActed : Phase A E → Type 0
  HasActed (releasing _ _) = Unit
  HasActed (marking _ _ _) = Unit
  HasActed finished = Unit
  HasActed _ = ⊥

  acted_of_owed :
      (phase : String → Phase A E) (p b : String) (ph : Phase A E)
      → phase b ≡ ph
      → contains (node plan b).before_rev p ≡ true
      → owed plan phase p b ≡ 0
      → HasActed ph
  acted_of_owed phase p b (releasing _ _) at edge none_left = tt
  acted_of_owed phase p b (marking _ _ _) at edge none_left = tt
  acted_of_owed phase p b finished at edge none_left = tt
  acted_of_owed phase p b _ at edge none_left = absurd (
      omega (
        arith,
        count-contains p (node plan b).before_rev edge,
        none_left,
        ap (λ z. count p (unreleased plan b z)) at,
      ))

  -- In every interleaving of a well-formed plan, one of its nodes leaves the state of waiting only
  -- after every node of the plan that it depends on has run or skipped all of its actions.
  pub dependencies_first :
      {s : Exec A E} (p b : String)
      → Reach plan s
      → contains (keys plan) p ≡ true
      → contains (keys plan) b ≡ true
      → contains (node plan b).before_rev p ≡ true
      → s.phase p ≢ waiting
      → HasActed (s.phase b)
  dependencies_first {s} p b r p_in b_in edge awake =
      let inv = Reach-Inv r in
      acted_of_owed s.phase p b (s.phase b) refl edge (
        grind (
          arith,
          inv.degrees p p_in,
          inv.waits p p_in,
          total-le b (owed plan s.phase p) (keys plan) b_in,
        ))
