-- ===== src/Store/Revisions/Search.antt =====
-- pkg/runtime/store/core/revision.go: which revision the two searches find.
use aptomi.Base.{
  ℕ, ◌≤◌, Bool, true, false, not, ◌≢◌, ◌≡◌, refl, sym, subst, ◌⊎◌, inl, inr, none, some, List, [],
  ◌∷◌, nat_eq, ltb, arith, Bool-cases,
}
use aptomi.Base.Lists.{In}
use aptomi.Store.Data.{Revision}
use aptomi.Store.Revisions.{is_processed, pick, first_unprocessed, last_for_policy}

-- A kept revision of the list than which no other kept one is better.
record IsBest (keep : Revision → Bool) (better : Revision → Revision → Bool) (rs : List Revision)
    (r : Revision) : Type 0 where
  inside : In r rs
  kept : keep r ≡ true
  best : (q : Revision) → In q rs → keep q ≡ true → better q r ≡ false

module _ (keep : Revision → Bool) (better : Revision → Revision → Bool)
    (irrefl : (r : Revision) → better r r ≡ false)
    (after_better : (r f b : Revision)
      → better r b ≡ false
      → better r f ≡ true
      → better f b ≡ false)
    (after_worse : (r f b : Revision)
      → better f b ≡ false
      → better r f ≡ false
      → better r b ≡ false) where
  alone-IsBest : (f : Revision) → keep f ≡ true → IsBest keep better (f ∷ []) f
  alone-IsBest f kept = record {
    inside = inl refl;
    kept = kept;
    best = λ q inside _. elim inside [
      | inl same ↦ subst (λ x. better x f ≡ false) (sym same) (irrefl f)
      | inr other ↦ absurd other
    ];
  }

  -- One more revision that is not better than all others.
  with-IsBest :
      (f r b : Revision) (rest : List Revision)
      → IsBest keep better (f ∷ rest) b
      → (keep r ≡ true → better r b ≡ false)
      → IsBest keep better (f ∷ r ∷ rest) b
  with-IsBest f r b rest h worse = record {
    inside = elim h.inside [ inl same ↦ inl same | inr later ↦ inr (inr later) ];
    kept = h.kept;
    best = λ q inside kept. elim inside [
      | inl same ↦ h.best q (inl same) kept
      | inr (inl same) ↦
          subst (λ x. better x b ≡ false) (sym same) (worse (subst (λ x. keep x ≡ true) same kept))
      | inr (inr later) ↦ h.best q (inr later) kept
    ];
  }

  -- A better one than the one found before.
  better-IsBest :
      (f r b : Revision) (rest : List Revision)
      → keep r ≡ true
      → better r f ≡ true
      → IsBest keep better (r ∷ rest) b
      → IsBest keep better (f ∷ r ∷ rest) b
  better-IsBest f r b rest good more h = record {
    inside = inr h.inside;
    kept = h.kept;
    best = λ q inside kept. elim inside [
      | inl same ↦
          subst (λ x. better x b ≡ false) (sym same)
            (after_better r f b (h.best r (inl refl) good) more)
      | inr later ↦ h.best q later kept
    ];
  }

  -- The loop, where it has found `f` before.
  pick-some :
      (f : Revision) (rs : List Revision)
      → keep f ≡ true
      → (r : Revision) × (pick keep better (some f) rs ≡ some r) × IsBest keep better (f ∷ rs) r
  unfolding pick
  pick-some f [] kept = (f, refl, alone-IsBest f kept)
  pick-some f (r ∷ rest) kept =
      let with_f = pick-some f rest kept in
      elim (Bool-cases (keep r)) [
        | inr skipped ↦ (
          with_f.0,
          rw (skipped, pick) with_f.1,
          with-IsBest f r with_f.0 rest with_f.2 (λ good. absurd (ground (arith, good, skipped))),
        )
        | inl good ↦ elim (Bool-cases (better r f)) [
          | inl more ↦
              let with_r = pick-some r rest good in
              (
                with_r.0,
                rw (good, more, pick) with_r.1,
                better-IsBest f r with_r.0 rest good more with_r.2,
              )
          | inr less ↦ (
            with_f.0,
            rw (good, less, pick) with_f.1,
            with-IsBest f r with_f.0 rest with_f.2
                (λ _. after_worse r f with_f.0 (with_f.2.best f (inl refl) kept) less),
          )
        ]
      ]

  -- Either all revisions are skipped and none is found, or the best one is found.
  pick-cases :
      (rs : List Revision)
      → ((pick keep better none rs ≡ none) × ((q : Revision) → In q rs → keep q ≡ false))
        ⊎ ((r : Revision) × (pick keep better none rs ≡ some r) × IsBest keep better rs r)
  unfolding pick
  pick-cases [] = inl (refl, λ q inside. absurd inside)
  pick-cases (r ∷ rest) = elim (Bool-cases (keep r)) [
    | inl good ↦
        let found = pick-some r rest good in inr (found.0, rw (good, pick) found.1, found.2)
    | inr skipped ↦ elim (pick-cases rest) [
      | inl (nothing, all) ↦ inl (
        rw (skipped, pick) nothing,
        λ q inside. elim inside [
          | inl same ↦ subst (λ x. keep x ≡ false) (sym same) skipped
          | inr later ↦ all q later
        ],
      )
      | inr (b, found, best) ↦ inr (
        b,
        rw (skipped, pick) found,
        record {
          inside = inr best.inside;
          kept = best.kept;
          best = λ q inside kept. elim inside [
            | inl same ↦ absurd (ground (arith, skipped, subst (λ x. keep x ≡ true) same kept))
            | inr later ↦ best.best q later kept
          ];
        },
      )
    ]
  ]

-- The unprocessed revision with the lowest generation.
pub record IsFirst (rs : List Revision) (r : Revision) : Type 0 where
  pub inside : In r rs
  pub unprocessed : is_processed r ≡ false
  pub lowest : (q : Revision) → In q rs → is_processed q ≡ false → r.generation ≤ q.generation

-- The revision for the policy with the greatest generation.
pub record IsLast (policy_gen : ℕ) (rs : List Revision) (r : Revision) : Type 0 where
  pub inside : In r rs
  pub same_policy : r.policy_gen ≡ policy_gen
  pub greatest : (q : Revision) → In q rs → q.policy_gen ≡ policy_gen → q.generation ≤ r.generation

-- GetFirstUnprocessedRevision finds no revision exactly when all have been processed, and else the
-- unprocessed one with the lowest generation.
pub first_unprocessed-cases :
    (rs : List Revision)
    → ((first_unprocessed rs ≡ none) × ((q : Revision) → In q rs → is_processed q ≡ true))
      ⊎ ((r : Revision) × (first_unprocessed rs ≡ some r) × IsFirst rs r)
unfolding first_unprocessed
first_unprocessed-cases rs =
    elim (pick-cases (λ r. not (is_processed r)) (λ r f. ltb r.generation f.generation)
      (λ r. ground arith) (λ r f b p q. ground (arith, p, q)) (λ r f b p q. ground (arith, p, q))
      rs) [
        | inl (nothing, all) ↦ inl (nothing, λ q inside. ground (arith, all q inside))
        | inr (r, found, best) ↦ inr (
          r,
          found,
          record {
            inside = best.inside;
            unprocessed = ground (arith, best.kept);
            lowest = λ q inside fresh. ground (arith, best.best q inside (ground (arith, fresh)));
          },
        )
      ]

-- GetLastRevisionForPolicy finds no revision exactly when none is for the policy's generation, and
-- else the one for it with the greatest generation.
pub last_for_policy-cases :
    (policy_gen : ℕ) (rs : List Revision)
    → ((last_for_policy policy_gen rs ≡ none)
        × ((q : Revision) → In q rs → q.policy_gen ≢ policy_gen))
      ⊎ ((r : Revision) × (last_for_policy policy_gen rs ≡ some r) × IsLast policy_gen rs r)
unfolding last_for_policy
last_for_policy-cases policy_gen rs =
    elim (pick-cases (λ r. nat_eq r.policy_gen policy_gen) (λ r f. ltb f.generation r.generation)
      (λ r. ground arith) (λ r f b p q. ground (arith, p, q)) (λ r f b p q. ground (arith, p, q))
      rs) [
        | inl (nothing, all) ↦ inl (nothing, λ q inside same. ground (arith, all q inside, same))
        | inr (r, found, best) ↦ inr (
          r,
          found,
          record {
            inside = best.inside;
            same_policy = ground (arith, best.kept);
            greatest = λ q inside same. ground (arith, best.best q inside (ground (arith, same)));
          },
        )
      ]
