-- ===== src/Engine/Plan/Invariant.antt =====
-- The degrees count what is still to be released, and a node waits exactly while its degree is
-- positive: so the decrement never goes below 0 and no node is queued twice.
use aptomi.Base.{
  ℕ, suc, ◌<◌, String, ◌≡◌, ◌≢◌, sym, ap, subst, ◌∙◌, inl, inr, true, false, List, [], ◌∷◌, arith,
  ◌==◌, Bool-cases, eq_of_test,
}
use aptomi.Base.Counting.{count, total, NodupList, total-change, total-le, total-ext}
use aptomi.Base.Dict.{keys}
use aptomi.Base.Lists.{length, contains}
use aptomi.Engine.Plan.{
  Plan, node, Phase, update, waiting, queued, started, acting, releasing, marking, finished,
}

module _ {A : Type 0} (plan : Plan A) where
  -- AddBefore enters each edge on both sides.
  pub record IsGraph : Type 0 where
    pub nodup : NodupList (keys plan)
    pub degrees :
        (p : String)
        → contains (keys plan) p ≡ true
        → length (node plan p).before ≡ total (λ b. count p (node plan b).before_rev) (keys plan)
    pub closed :
        (b p : String) → contains (node plan b).before_rev p ≡ true → contains (keys plan) p ≡ true

  module _ {E : Type 0} where
    -- The nodes that a goroutine is still to release.
    abbrev pub unreleased : String → Phase A E → List String
    unreleased b waiting = (node plan b).before_rev
    unreleased b queued = (node plan b).before_rev
    unreleased b started = (node plan b).before_rev
    unreleased b (acting _ _) = (node plan b).before_rev
    unreleased b (releasing ps _) = ps
    unreleased b (marking p ps _) = ps
    unreleased b finished = []

    abbrev pub owed : (String → Phase A E) → String → String → ℕ
    owed phase p b = count p (unreleased b (phase b))

    pub record Inv (deg : String → ℕ) (phase : String → Phase A E) : Type 0 where
      pub degrees :
          (p : String) → contains (keys plan) p ≡ true → deg p ≡ total (owed phase p) (keys plan)
      pub positive : (p : String) → contains (keys plan) p ≡ true → phase p ≡ waiting → 0 < deg p
      pub waits : (p : String) → contains (keys plan) p ≡ true → 0 < deg p → phase p ≡ waiting
      pub within :
          (b p : String)
          → contains (unreleased b (phase b)) p ≡ true
          → contains (node plan b).before_rev p ≡ true

    unreleased-update :
        (phase : String → Phase A E) (b : String) (ph : Phase A E) (x : String)
        → unreleased b ph ≡ unreleased b (phase b)
        → unreleased x (update phase b ph x) ≡ unreleased x (phase x)
    unreleased-update phase b ph x same = elim (Bool-cases (x == b)) [
      | inl e ↦
          rw e (subst (λ z. unreleased z ph ≡ unreleased z (phase z)) (sym (eq_of_test x b e)) same)
      | inr e ↦ rw e
    ]

    -- A step of `b` that releases nothing.
    pub keep-Inv :
        (deg : String → ℕ) (phase : String → Phase A E) (b : String) (ph : Phase A E)
        → Inv deg phase
        → phase b ≢ waiting
        → ph ≢ waiting
        → unreleased b ph ≡ unreleased b (phase b)
        → Inv deg (update phase b ph)
    keep-Inv deg phase b ph inv awake awake' same = record {
      degrees = λ p h.
          inv.degrees p h
          ∙ total-ext _ _ (keys plan)
              (λ x. ap (count p) (sym (unreleased-update phase b ph x same)));
      positive = λ p h e. ground (arith, inv.positive p h);
      waits =
          λ p h pos. ground (arith, inv.waits p h pos, eq_of_test p b, ap phase {x = p} {y = b});
      within = λ x p h. inv.within x p (rw (unreleased-update phase b ph x same) at h);
    }

    module _ (deg : String → ℕ) (phase : String → Phase A E) (b p : String) (ps : List String)
        (inv : Inv deg phase) (graph : IsGraph) (in_plan : contains (keys plan) b ≡ true)
        (first : unreleased b (phase b) ≡ p ∷ ps) where
      target_in_plan : contains (keys plan) p ≡ true
      target_in_plan = graph.closed b p (inv.within b p (rw first (ground arith)))

      -- The degree is positive before it is decremented.
      pub release_positive : 0 < deg p
      release_positive = omega (
        arith,
        inv.degrees p target_in_plan,
        total-le b (owed phase p) (keys plan) in_plan,
        owed_here,
      )
        where
          owed_here : 0 < owed phase p b
          owed_here = rw first (ground arith)

      pub target_waits : phase p ≡ waiting
      target_waits = inv.waits p target_in_plan release_positive

      -- After the decrement the degrees are right again.
      release-degrees :
          (ph : Phase A E) (d : ℕ) (phase' : String → Phase A E)
          → deg p ≡ suc d
          → unreleased b ph ≡ ps
          → phase' b ≡ ph
          → ((x : String) → (x == b) ≡ false → unreleased x (phase' x) ≡ unreleased x (phase x))
          → (q : String) → contains (keys plan) q ≡ true
          → update deg p d q ≡ total (owed phase' q) (keys plan)
      release-degrees ph d phase' dec rest now others q h = ground (
        arith,
        inv.degrees q h,
        total-change b (owed phase q) (owed phase' q) (keys plan) graph.nodup in_plan
            (λ x ne. sym (ap (count q) (others x ne))),
        ap (count q) first,
        ap (λ z. count q (unreleased b z)) now,
        ap (count q) rest,
        eq_of_test q p,
        ap deg {x = q} {y = p},
      )

      release-within :
          (ph : Phase A E) (phase' : String → Phase A E)
          → unreleased b ph ≡ ps
          → phase' b ≡ ph
          → ((x : String) → (x == b) ≡ false → unreleased x (phase' x) ≡ unreleased x (phase x))
          → (x q : String) → contains (unreleased x (phase' x)) q ≡ true
          → contains (node plan x).before_rev q ≡ true
      release-within ph phase' rest now others x q h = elim (Bool-cases (x == b)) [
        | inr ne ↦ inv.within x q (rw (others x ne) at h)
        | inl e ↦
            let same = eq_of_test x b e in
            let left : unreleased b (phase' b) ≡ ps = ap (unreleased b) now ∙ rest in
            let there = subst (λ z. contains (unreleased z (phase' z)) q ≡ true) same h in
            let old : contains (p ∷ ps) q ≡ true = ground (arith, ap (λ l. contains l q) left) in
            subst (λ z. contains (node plan z).before_rev q ≡ true) (sym same)
              (inv.within b q (ap (λ l. contains l q) first ∙ old))
      ]

      queued-others : (x : String) → unreleased x (update phase p queued x) ≡ unreleased x (phase x)
      queued-others x = elim (Bool-cases (x == p)) [
        | inr ne ↦ rw ne
        | inl e ↦ rw e (sym (ap (unreleased x) (ap phase (eq_of_test x p e) ∙ target_waits)))
      ]

      target_other : phase b ≢ waiting → (p == b) ≡ false
      target_other awake = ground (arith, target_waits, eq_of_test p b, ap phase {x = p} {y = b})

      -- A release that leaves the target waiting.
      pub release_more :
          (ph : Phase A E) (d : ℕ)
          → deg p ≡ suc (suc d)
          → phase b ≢ waiting
          → ph ≢ waiting
          → unreleased b ph ≡ ps
          → Inv (update deg p (suc d)) (update phase b ph)
      release_more ph d dec awake awake' rest = record {
        degrees =
            release-degrees ph (suc d) (update phase b ph) dec rest (ground arith) (λ x ne. rw ne);
        positive = λ q h e. ground (arith, inv.positive q h);
        waits = λ q h pos. ground (
          arith,
          inv.waits q h,
          target_waits,
          eq_of_test q p,
          eq_of_test q b,
          ap phase {x = q} {y = b},
          ap phase {x = q} {y = p},
          target_other awake,
        );
        within = release-within ph (update phase b ph) rest (ground arith) (λ x ne. rw ne);
      }

      -- A release that puts the target into the queue.
      pub release_last :
          (ph : Phase A E)
          → deg p ≡ 1
          → phase b ≢ waiting
          → ph ≢ waiting
          → unreleased b ph ≡ ps
          → Inv (update deg p 0) (update (update phase p queued) b ph)
      release_last ph dec awake awake' rest = record {
        degrees =
            release-degrees ph 0 (update (update phase p queued) b ph) dec rest (ground arith)
              (λ x ne. rw ne (queued-others x));
        positive = λ q h e. ground (arith, inv.positive q h);
        waits = λ q h pos. ground (
          arith,
          inv.waits q h,
          target_waits,
          eq_of_test q p,
          eq_of_test q b,
          ap phase {x = q} {y = b},
          ap phase {x = q} {y = p},
          target_other awake,
        );
        within =
            release-within ph (update (update phase p queued) b ph) rest (ground arith)
              (λ x ne. rw ne (queued-others x));
      }
