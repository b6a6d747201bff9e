-- ===== src/Engine/Plan/Counts.antt =====
-- Every action is counted once: as success, as failed or as skipped.
use aptomi.Base.{
  ℕ, zero, suc, ◌+◌, String, ◌≡◌, refl, sym, ap, subst, ◌∙◌, true, false, inl, inr, Option, none,
  some, List, [], ◌∷◌, arith, ◌==◌, Bool-cases, eq_of_test,
}
use aptomi.Base.Counting.{total, NodupList, total-change, total-ext}
use aptomi.Base.Dict.{keys}
use aptomi.Base.Lists.{length, contains}
use aptomi.Engine.Plan.{
  Plan, node, Phase, Exec, Outcome, update, waiting, queued, started, acting, releasing, marking,
  finished, next, init, set_phase, enqueue, release, then_phase, act, step_at, step_node, Step,
  step, Reach, here, more,
}

-- The value that SetTotal gets: as many actions as the plan's nodes have.
abbrev pub number_of_actions : {A : Type 0} → Plan A → ℕ
number_of_actions plan = total (λ b. length (node plan b).actions) (keys plan)

total-zero :
    (f : String → ℕ) (xs : List String)
    → ((x : String) → contains xs x ≡ true → f x ≡ 0)
    → total f xs ≡ 0
total-zero f [] h = refl
total-zero f (x ∷ xs) h =
    omega (arith, h x (ground arith), total-zero f xs (λ y e. h y (ground arith)))

module _ {A E : Type 0} (plan : Plan A) where
  -- The actions of a node that are neither run nor skipped.
  abbrev pub open_actions : String → Phase A E → ℕ
  open_actions b waiting = length (node plan b).actions
  open_actions b queued = length (node plan b).actions
  open_actions b started = length (node plan b).actions
  open_actions b (acting rest _) = length rest
  open_actions b (releasing _ _) = 0
  open_actions b (marking _ _ _) = 0
  open_actions b finished = 0

  abbrev counted : Exec A E → ℕ
  counted s = s.success + s.failed + s.skipped

  record Counts (s : Exec A E) : Type 0 where
    sum : counted s + total (λ b. open_actions b (s.phase b)) (keys plan) ≡ number_of_actions plan

  abbrev CountsOutcome : Outcome A E → Type 0
  CountsOutcome (next s) = Counts s
  CountsOutcome _ = Unit

  module _ (nodup : NodupList (keys plan)) (s : Exec A E) (b : String)
      (in_plan : contains (keys plan) b ≡ true) (counts : Counts s) where
    -- A step of `b` that counts `n` actions and changes the phase of no other node.
    moved :
        (n : ℕ) (ph : Phase A E) (s' : Exec A E)
        → open_actions b (s.phase b) ≡ n + open_actions b ph
        → counted s' ≡ counted s + n
        → ((x : String)
            → (x == b) ≡ false
            → open_actions x (s'.phase x) ≡ open_actions x (s.phase x))
        → s'.phase b ≡ ph
        → Counts s'
    moved n ph s' here_open now others at = record {
      sum = omega (
        arith,
        counts.sum,
        now,
        here_open,
        ap (open_actions b) at,
        total-change b (λ x. open_actions x (s'.phase x)) (λ x. open_actions x (s.phase x))
            (keys plan) nodup in_plan others,
      );
    }

    act-Counts :
        (rest : List A) (found result : Option E) (a : A)
        → s.phase b ≡ acting (a ∷ rest) found
        → Counts (act plan b rest found result s)
    unfolding act set_phase
    act-Counts rest (some e) result a at =
        moved 1 (acting rest (some e)) _ (rw at (omega arith)) (omega arith) (λ x ne. rw ne)
          (ground arith)
    act-Counts rest none none a at =
        moved 1 (acting rest none) _ (rw at (omega arith)) (omega arith) (λ x ne. rw ne)
          (ground arith)
    act-Counts rest none (some e) a at =
        moved 1 (acting rest (some e)) _ (rw at (omega arith)) (omega arith) (λ x ne. rw ne)
          (ground arith)

    queued-open :
        (p x : String)
        → s.phase p ≡ waiting
        → open_actions x (update s.phase p queued x) ≡ open_actions x (s.phase x)
    queued-open p x w = elim (Bool-cases (x == p)) [
      | inr ne ↦ rw ne
      | inl e ↦ rw e (sym (ap (open_actions x) (ap s.phase (eq_of_test x p e) ∙ w)))
    ]

    enqueue-Counts :
        (p : String) (ph at_p : Phase A E) (deg : String → ℕ)
        → open_actions b (s.phase b) ≡ open_actions b ph
        → s.phase p ≡ at_p
        → CountsOutcome (then_phase plan b ph (enqueue plan p 0 (record s { deg = deg })))
    unfolding enqueue set_phase
    enqueue-Counts p ph waiting deg same at =
        rw (at, enqueue)
          (moved 0 ph _ (omega (arith, same)) (omega arith) (λ x ne. rw ne (queued-open p x at))
            (ground arith))
    enqueue-Counts p ph queued deg same at = rw (at, enqueue) tt
    enqueue-Counts p ph started deg same at = rw (at, enqueue) tt
    enqueue-Counts p ph (acting _ _) deg same at = rw (at, enqueue) tt
    enqueue-Counts p ph (releasing _ _) deg same at = rw (at, enqueue) tt
    enqueue-Counts p ph (marking _ _ _) deg same at = rw (at, enqueue) tt
    enqueue-Counts p ph finished deg same at = rw (at, enqueue) tt

    release-Counts :
        (p : String) (ph : Phase A E) (n : ℕ)
        → open_actions b (s.phase b) ≡ open_actions b ph
        → CountsOutcome (then_phase plan b ph (release plan p n s))
    unfolding release enqueue set_phase
    release-Counts p ph zero same = tt
    release-Counts p ph (suc (suc n)) same =
        moved 0 ph _ (omega (arith, same)) (omega arith) (λ x ne. rw ne) (ground arith)
    release-Counts p ph (suc zero) same =
        enqueue-Counts p ph (s.phase p) (update s.deg p 0) same refl

    step_at-Counts :
        (result : Option E) (ph : Phase A E)
        → s.phase b ≡ ph
        → CountsOutcome (step_at plan b result s ph)
    unfolding step_at set_phase
    step_at-Counts result waiting at = tt
    step_at-Counts result finished at = tt
    step_at-Counts result queued at =
        moved 0 started _ (rw at (omega arith)) (omega arith) (λ x ne. rw ne) (ground arith)
    step_at-Counts result started at =
        moved 0 (acting (node plan b).actions (s.was_error b)) _ (rw at (omega arith)) (omega arith)
          (λ x ne. rw ne) (ground arith)
    step_at-Counts result (acting (a ∷ rest) found) at = act-Counts rest found result a at
    step_at-Counts result (acting [] none) at =
        moved 0 (releasing (node plan b).before_rev none) _ (rw at (omega arith)) (omega arith)
          (λ x ne. rw ne) (ground arith)
    step_at-Counts result (acting [] (some e)) at =
        moved 0 (releasing (node plan b).before_rev (some e)) _ (rw at (omega arith)) (omega arith)
          (λ x ne. rw ne) (ground arith)
    step_at-Counts result (releasing [] found) at =
        moved 0 finished _ (rw at (omega arith)) (omega arith) (λ x ne. rw ne) (ground arith)
    step_at-Counts result (releasing (p ∷ ps) none) at =
        release-Counts p (releasing ps none) (s.deg p) (rw at)
    step_at-Counts result (releasing (p ∷ ps) (some e)) at =
        release-Counts p (marking p ps e) (s.deg p) (rw at)
    step_at-Counts result (marking p ps e) at =
        moved 0 (releasing ps (some e)) _ (rw at (omega arith)) (omega arith) (λ x ne. rw ne)
          (ground arith)

  init-Counts : Counts (init {E = E} plan)
  unfolding init
  init-Counts = record { sum = omega (arith, total-ext _ _ (keys plan) same) }
    where
      same :
          (x : String) → open_actions x ((init {E = E} plan).phase x) ≡ length (node plan x).actions
      same x = ground arith

  Step-Counts : {s s' : Exec A E} → NodupList (keys plan) → Counts s → Step plan s s' → Counts s'
  unfolding step_node
  Step-Counts {s} nodup counts (step b result in_plan e) =
      subst CountsOutcome e (step_at-Counts nodup s b in_plan counts result (s.phase b) refl)

  Reach-Counts : {s : Exec A E} → NodupList (keys plan) → Reach plan s → Counts s
  Reach-Counts nodup here = init-Counts
  Reach-Counts nodup (more r st) = Step-Counts nodup (Reach-Counts nodup r) st

  -- When every node's goroutine has finished, the successes, the failures and the skipped actions
  -- add up to the number of actions in the plan: the check in Done does not panic.
  pub counts_at_end :
      {s : Exec A E}
      → NodupList (keys plan)
      → Reach plan s
      → ((b : String) → contains (keys plan) b ≡ true → s.phase b ≡ finished)
      → s.success + s.failed + s.skipped ≡ number_of_actions plan
  counts_at_end {s} nodup r all_finished = omega (
    arith,
    (Reach-Counts nodup r).sum,
    total-zero (λ b. open_actions b (s.phase b)) (keys plan)
        (λ x h. ap (open_actions x) (all_finished x h)),
  )
