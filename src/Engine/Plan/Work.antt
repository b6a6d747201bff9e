-- ===== src/Engine/Plan/Work.antt =====
-- Every run of a plan ends.
use aptomi.Base.{
  ℕ, zero, suc, ◌+◌, ◌*◌, ◌≤◌, ◌<◌, String, ◌≡◌, refl, sym, ap, subst, ◌∙◌, true, false, inl, inr,
  Option, none, some, List, [], ◌∷◌, arith, ◌==◌, Bool-cases, eq_of_test,
}
use aptomi.Base.Counting.{total}
use aptomi.Base.Dict.{keys}
use aptomi.Base.Lists.{length, contains}
use aptomi.Engine.Plan.{
  Plan, node, Phase, Exec, Outcome, update, waiting, queued, started, acting, releasing, marking,
  finished, next, init, set_phase, enqueue, release, then_phase, act, step_at, step_node, Step,
  step, Reach, here, more,
}

total-le-total :
    (f g : String → ℕ) (xs : List String) → ((x : String) → f x ≤ g x) → total f xs ≤ total g xs
total-le-total f g [] le = omega arith
total-le-total f g (x ∷ xs) le = omega (arith, le x, total-le-total f g xs le)

total-lt :
    (f g : String → ℕ) (xs : List String) (b : String)
    → ((x : String) → f x ≤ g x)
    → contains xs b ≡ true
    → f b < g b
    → total f xs < total g xs
total-lt f g [] b le h lt = cc
total-lt f g (x ∷ xs) b le h lt = ground (
  arith,
  total-lt f g xs b le,
  total-le-total f g xs le,
  le x,
  ap f {x = x} {y = b},
  ap g {x = x} {y = b},
)

module _ {A E : Type 0} (plan : Plan A) where
  -- A bound for the steps that a node's goroutine has left.
  abbrev pub work : String → Phase A E → ℕ
  work b finished = 0
  work b (releasing ps _) = 1 + 2 * length ps
  work b (marking p ps _) = 2 + 2 * length ps
  work b (acting rest _) = 2 + 2 * length (node plan b).before_rev + length rest
  work b started = 3 + 2 * length (node plan b).before_rev + length (node plan b).actions
  work b queued = 4 + 2 * length (node plan b).before_rev + length (node plan b).actions
  work b waiting = 5 + 2 * length (node plan b).before_rev + length (node plan b).actions

  abbrev pub work_left : Exec A E → ℕ
  work_left s = total (λ b. work b (s.phase b)) (keys plan)

  record Shrinks (s s' : Exec A E) : Type 0 where
    less : work_left s' < work_left s

  abbrev ShrinksOutcome : Exec A E → Outcome A E → Type 0
  ShrinksOutcome s (next s') = Shrinks s s'
  ShrinksOutcome s _ = Unit

  module _ (s : Exec A E) (b : String) (in_plan : contains (keys plan) b ≡ true) where
    lower :
        (s' : Exec A E) (ph : Phase A E)
        → s'.phase b ≡ ph
        → work b ph < work b (s.phase b)
        → ((x : String) → (x == b) ≡ false → work x (s'.phase x) ≤ work x (s.phase x))
        → Shrinks s s'
    lower s' ph at lt others = record {
      less = total-lt _ _ (keys plan) b every in_plan (omega (arith, lt, ap (work b) at));
    }
      where
        every : (x : String) → work x (s'.phase x) ≤ work x (s.phase x)
        every x = elim (Bool-cases (x == b)) [
          | inr ne ↦ others x ne
          | inl e ↦
              subst (λ z. work z (s'.phase z) ≤ work z (s.phase z)) (sym (eq_of_test x b e))
                (omega (arith, lt, ap (work b) at))
        ]

    act-Shrinks :
        (rest : List A) (found result : Option E) (a : A)
        → s.phase b ≡ acting (a ∷ rest) found
        → Shrinks s (act plan b rest found result s)
    unfolding act set_phase
    act-Shrinks rest (some e) result a at =
        lower _ (acting rest (some e)) (ground arith) (rw at (omega arith))
          (λ x ne. rw ne (omega arith))
    act-Shrinks rest none none a at =
        lower _ (acting rest none) (ground arith) (rw at (omega arith))
          (λ x ne. rw ne (omega arith))
    act-Shrinks rest none (some e) a at =
        lower _ (acting rest (some e)) (ground arith) (rw at (omega arith))
          (λ x ne. rw ne (omega arith))

    queued-work :
        (p x : String)
        → s.phase p ≡ waiting
        → work x (update s.phase p queued x) ≤ work x (s.phase x)
    queued-work p x w = elim (Bool-cases (x == p)) [
      | inr ne ↦ rw ne (omega arith)
      | inl e ↦ rw e (omega (arith, ap (work x) (ap s.phase (eq_of_test x p e) ∙ w)))
    ]

    enqueue-Shrinks :
        (p : String) (ph at_p : Phase A E) (deg : String → ℕ)
        → work b ph < work b (s.phase b)
        → s.phase p ≡ at_p
        → ShrinksOutcome s (then_phase plan b ph (enqueue plan p 0 (record s { deg = deg })))
    unfolding enqueue set_phase
    enqueue-Shrinks p ph waiting deg lt at =
        rw (at, enqueue) (lower _ ph (ground arith) lt (λ x ne. rw ne (queued-work p x at)))
    enqueue-Shrinks p ph queued deg lt at = rw (at, enqueue) tt
    enqueue-Shrinks p ph started deg lt at = rw (at, enqueue) tt
    enqueue-Shrinks p ph (acting _ _) deg lt at = rw (at, enqueue) tt
    enqueue-Shrinks p ph (releasing _ _) deg lt at = rw (at, enqueue) tt
    enqueue-Shrinks p ph (marking _ _ _) deg lt at = rw (at, enqueue) tt
    enqueue-Shrinks p ph finished deg lt at = rw (at, enqueue) tt

    release-Shrinks :
        (p : String) (ph : Phase A E) (n : ℕ)
        → work b ph < work b (s.phase b)
        → ShrinksOutcome s (then_phase plan b ph (release plan p n s))
    unfolding release enqueue set_phase
    release-Shrinks p ph zero lt = tt
    release-Shrinks p ph (suc (suc n)) lt =
        lower _ ph (ground arith) lt (λ x ne. rw ne (omega arith))
    release-Shrinks p ph (suc zero) lt = enqueue-Shrinks p ph (s.phase p) (update s.deg p 0) lt refl

    step_at-Shrinks :
        (result : Option E) (ph : Phase A E)
        → s.phase b ≡ ph
        → ShrinksOutcome s (step_at plan b result s ph)
    unfolding step_at set_phase
    step_at-Shrinks result waiting at = tt
    step_at-Shrinks result finished at = tt
    step_at-Shrinks result queued at =
        lower _ started (ground arith) (rw at (omega arith)) (λ x ne. rw ne (omega arith))
    step_at-Shrinks result started at =
        lower _ (acting (node plan b).actions (s.was_error b)) (ground arith) (rw at (omega arith))
          (λ x ne. rw ne (omega arith))
    step_at-Shrinks result (acting (a ∷ rest) found) at = act-Shrinks rest found result a at
    step_at-Shrinks result (acting [] none) at =
        lower _ (releasing (node plan b).before_rev none) (ground arith) (rw at (omega arith))
          (λ x ne. rw ne (omega arith))
    step_at-Shrinks result (acting [] (some e)) at =
        lower _ (releasing (node plan b).before_rev (some e)) (ground arith) (rw at (omega arith))
          (λ x ne. rw ne (omega arith))
    step_at-Shrinks result (releasing [] found) at =
        lower _ finished (ground arith) (rw at (omega arith)) (λ x ne. rw ne (omega arith))
    step_at-Shrinks result (releasing (p ∷ ps) none) at =
        release-Shrinks p (releasing ps none) (s.deg p) (rw at (omega arith))
    step_at-Shrinks result (releasing (p ∷ ps) (some e)) at =
        release-Shrinks p (marking p ps e) (s.deg p) (rw at (omega arith))
    step_at-Shrinks result (marking p ps e) at =
        lower _ (releasing ps (some e)) (ground arith) (rw at (omega arith))
          (λ x ne. rw ne (omega arith))

  Step-Shrinks : {s s' : Exec A E} → Step plan s s' → Shrinks s s'
  unfolding step_node
  Step-Shrinks {s} (step b result in_plan e) =
      subst (ShrinksOutcome s) e (step_at-Shrinks s b in_plan result (s.phase b) refl)

  -- How many steps a run has taken.
  unfoldable pub steps : {s : Exec A E} → Reach plan s → ℕ
  steps here = 0
  steps (more r _) = suc (steps r)

  -- Every run, whatever the interleaving and the results of the actions, has at most as many steps
  -- as the initial bound: it ends.
  pub steps-le-work :
      {s : Exec A E} (r : Reach plan s) → steps r + work_left s ≤ work_left (init plan)
  unfolding steps
  steps-le-work here = omega arith
  steps-le-work (more r st) = omega (arith, steps-le-work r, (Step-Shrinks st).less)
