-- ===== src/Engine/Plan/Building.antt =====
-- pkg/engine/apply/action/action_graph.go: a change of one node of a plan, and what keeps the plan
-- well-formed. Edges are counted for every key, also for those that are no node.
use aptomi.Base.{
  ℕ, suc, String, ◌≡◌, refl, sym, ap, ◌∙◌, true, false, ◌||◌, none, some, inl, inr, List, [], ◌∷◌,
  ◌++◌, arith, ◌==◌, if◌then◌else◌, Bool-cases, eq_of_test,
}
use aptomi.Base.Counting.{count, total, NodupList, total-ext}
use aptomi.Base.Dict.{Dict, lookup, insert, keys, lookup-insert}
use aptomi.Base.Lists.{length, contains}
use aptomi.Engine.Plan.{GraphNode, Plan, node, new_graph_node}
use aptomi.Engine.Plan.Invariant.{IsGraph}

module _ {V : Type 0} where
  pub contains-keys :
      (x k : String) (v : V) (d : Dict V)
      → contains (keys (insert k v d)) x ≡ (k == x || contains (keys d) x)
  unfolding insert keys
  contains-keys x k v [] = refl
  contains-keys x k v (_ ∷ d) = ground (arith, contains-keys x k v d)

  pub keys-NodupList :
      (k : String) (v : V) (d : Dict V) → NodupList (keys d) → NodupList (keys (insert k v d))
  unfolding insert keys
  keys-NodupList k v [] u = (refl, tt)
  keys-NodupList k v ((j, _) ∷ d) u =
      ground (arith, keys-NodupList k v d u.1, contains-keys j k v d)

  -- A key that adds nothing, or one that is there, leaves the sum.
  pub total-keys :
      (f : String → ℕ) (k : String) (v : V) (d : Dict V)
      → (contains (keys d) k ≡ false → f k ≡ 0)
      → total f (keys (insert k v d)) ≡ total f (keys d)
  unfolding insert keys
  total-keys f k v [] h = ground arith
  total-keys f k v ((j, _) ∷ d) h = elim (Bool-cases (k == j)) [
    | inl same ↦ ground (arith, same, ap f (eq_of_test k j same))
    | inr other ↦ ground (arith, other, total-keys f k v d (λ e. h (ground arith)))
  ]

  pub lookup-keys :
      (k : String) (v : V) (d : Dict V) → lookup k d ≡ some v → contains (keys d) k ≡ true
  unfolding lookup keys
  lookup-keys k v [] h = cc
  lookup-keys k v (_ ∷ d) h = ground (arith, lookup-keys k v d)

  keys-lookup : (k : String) (d : Dict V) → contains (keys d) k ≡ false → lookup k d ≡ none
  unfolding lookup keys
  keys-lookup k [] h = refl
  keys-lookup k (_ ∷ d) h = ground (arith, keys-lookup k d)

pub count-snoc :
    (p k : String) (xs : List String)
    → count p (xs ++ k ∷ []) ≡ (if p == k then suc (count p xs) else count p xs)
count-snoc p k [] = refl
count-snoc p k (x ∷ xs) = ground (arith, count-snoc p k xs)

pub length-snoc : (k : String) (xs : List String) → length (xs ++ k ∷ []) ≡ suc (length xs)
length-snoc k [] = refl
length-snoc k (x ∷ xs) = ground (arith, length-snoc k xs)

pub contains-snoc :
    (p k : String) (xs : List String) → contains (xs ++ k ∷ []) p ≡ (contains xs p || k == p)
contains-snoc p k [] = ground arith
contains-snoc p k (x ∷ xs) = ground (arith, contains-snoc p k xs)

module _ {A : Type 0} where
  pub node-insert :
      (x k : String) (n : GraphNode A) (plan : Plan A)
      → node (insert k n plan) x ≡ (if x == k then n else node plan x)
  node-insert x k n plan = ground (arith, lookup-insert x k n plan)

  node-missing :
      (x : String) (plan : Plan A) → contains (keys plan) x ≡ false → node plan x ≡ new_graph_node x
  node-missing x plan h = ground (arith, keys-lookup x plan h)

  -- Each edge stands on both sides, and BeforeRev of a node names nodes only.
  pub record IsBuilt (plan : Plan A) : Type 0 where
    pub nodup : NodupList (keys plan)
    pub degrees :
        (p : String)
        → length (node plan p).before ≡ total (λ b. count p (node plan b).before_rev) (keys plan)
    pub closed :
        (b p : String) → contains (node plan b).before_rev p ≡ true → contains (keys plan) p ≡ true

  pub IsBuilt-IsGraph : {plan : Plan A} → IsBuilt plan → IsGraph plan
  IsBuilt-IsGraph built = record {
    nodup = built.nodup;
    degrees = λ p _. built.degrees p;
    closed = built.closed;
  }

  pub nil-IsBuilt : IsBuilt []
  unfolding lookup keys
  nil-IsBuilt = record { nodup = tt; degrees = λ p. refl; closed = λ b p h. cc }

  -- A change that keeps the edges of the node.
  module _ (plan : Plan A) (k : String) (n : GraphNode A) (before : n.before ≡ (node plan k).before)
      (before_rev : n.before_rev ≡ (node plan k).before_rev) where
    same_before : (x : String) → (node (insert k n plan) x).before ≡ (node plan x).before
    same_before x = elim (Bool-cases (x == k)) [
      | inl same ↦ ground (arith, node-insert x k n plan, before, eq_of_test x k same)
      | inr other ↦ ground (arith, node-insert x k n plan, other)
    ]

    same_before_rev :
        (x : String) → (node (insert k n plan) x).before_rev ≡ (node plan x).before_rev
    same_before_rev x = elim (Bool-cases (x == k)) [
      | inl same ↦ ground (arith, node-insert x k n plan, before_rev, eq_of_test x k same)
      | inr other ↦ ground (arith, node-insert x k n plan, other)
    ]

    pub insert-IsBuilt : IsBuilt plan → IsBuilt (insert k n plan)
    insert-IsBuilt built = record {
      nodup = keys-NodupList k n plan built.nodup;
      degrees = λ p.
          ap length (same_before p)
          ∙ built.degrees p
          ∙ sym (
              total-keys (λ b. count p (node plan b).before_rev) k n plan
                (λ e. ap (λ (m : GraphNode A). count p m.before_rev) (node-missing k plan e)))
          ∙ total-ext _ _ (keys (insert k n plan)) (λ b. ap (count p) (sym (same_before_rev b)));
      closed = λ b p h.
          ground (arith, contains-keys p k n plan, built.closed b p (rw (same_before_rev b) at h));
    }
