-- ===== src/Engine/Diff/Edges.antt =====
-- pkg/engine/apply/action/action_graph.go: what AddBefore does to the edges of a plan.
use aptomi.Base.{
  ℕ, suc, String, ◌≡◌, refl, sym, ap, ◌∙◌, true, ◌||◌, inl, inr, [], ◌∷◌, ◌++◌, arith, ◌==◌,
  if◌then◌else◌, Bool-cases, eq_of_test,
}
use aptomi.Base.Counting.{count, total, NodupList, total-change}
use aptomi.Base.Dict.{insert, keys}
use aptomi.Base.Lists.{length, contains}
use aptomi.Engine.Actions.{Action}
use aptomi.Engine.Plan.{GraphNode, Plan, node}
use aptomi.Engine.Plan.Building.{
  contains-keys, keys-NodupList, total-keys, count-snoc, length-snoc, contains-snoc, node-insert,
  IsBuilt,
}
use aptomi.Engine.Diff.{add_before}

module _ (plan : Plan Action) (key that : String) where
  -- The node and the plan after the first half of AddBefore, and the node of the second half.
  abbrev waiting_node : GraphNode Action
  waiting_node = let n = node plan key in record n { before = n.before ++ that ∷ [] }

  abbrev half_way : Plan Action
  half_way = insert key waiting_node plan

  abbrev released : GraphNode Action
  released = let m = node half_way that in record m { before_rev = m.before_rev ++ key ∷ [] }

  half_way-before :
      (x : String)
      → (node half_way x).before
        ≡ (if x == key then (node plan x).before ++ that ∷ [] else (node plan x).before)
  half_way-before x = elim (Bool-cases (x == key)) [
    | inl same ↦
        ap (λ (n : GraphNode Action). n.before) (node-insert x key waiting_node plan)
        ∙ rw (same, eq_of_test x key same) refl
    | inr other ↦
        ap (λ (n : GraphNode Action). n.before) (node-insert x key waiting_node plan)
        ∙ rw other refl
  ]

  half_way-before_rev : (x : String) → (node half_way x).before_rev ≡ (node plan x).before_rev
  half_way-before_rev x = elim (Bool-cases (x == key)) [
    | inl same ↦
        ap (λ (n : GraphNode Action). n.before_rev) (node-insert x key waiting_node plan)
        ∙ rw (same, eq_of_test x key same) refl
    | inr other ↦
        ap (λ (n : GraphNode Action). n.before_rev) (node-insert x key waiting_node plan)
        ∙ rw other refl
  ]

  add_before-before :
      (x : String)
      → (node (add_before key that plan) x).before
        ≡ (if x == key then (node plan x).before ++ that ∷ [] else (node plan x).before)
  unfolding add_before
  add_before-before x = elim (Bool-cases (x == that)) [
    | inl same ↦
        ap (λ (n : GraphNode Action). n.before) (node-insert x that released half_way)
        ∙ rw (same, eq_of_test x that same) (half_way-before that)
    | inr other ↦
        ap (λ (n : GraphNode Action). n.before) (node-insert x that released half_way)
        ∙ rw other (half_way-before x)
  ]

  add_before-before_rev :
      (x : String)
      → (node (add_before key that plan) x).before_rev
        ≡ (if x == that then (node plan x).before_rev ++ key ∷ [] else (node plan x).before_rev)
  unfolding add_before
  add_before-before_rev x = elim (Bool-cases (x == that)) [
    | inl same ↦
        ap (λ (n : GraphNode Action). n.before_rev) (node-insert x that released half_way)
        ∙ rw (same, eq_of_test x that same) (ap (λ xs. xs ++ key ∷ []) (half_way-before_rev that))
    | inr other ↦
        ap (λ (n : GraphNode Action). n.before_rev) (node-insert x that released half_way)
        ∙ rw other (half_way-before_rev x)
  ]

  add_before-keys :
      contains (keys plan) key ≡ true
      → contains (keys plan) that ≡ true
      → (x : String) → contains (keys (add_before key that plan)) x ≡ contains (keys plan) x
  unfolding add_before
  add_before-keys key_in that_in x =
      contains-keys x that released half_way
      ∙ ap (λ h. that == x || h) (contains-keys x key waiting_node plan)
      ∙ ground (arith, key_in, that_in)

  add_before-total :
      contains (keys plan) key ≡ true
      → contains (keys plan) that ≡ true
      → (f : String → ℕ) → total f (keys (add_before key that plan)) ≡ total f (keys plan)
  unfolding add_before
  add_before-total key_in that_in f =
      total-keys f that released half_way
        (λ e. absurd (ground (arith, e, contains-keys that key waiting_node plan, that_in)))
      ∙ total-keys f key waiting_node plan (λ e. absurd (cc (e, key_in)))

  add_before-NodupList : NodupList (keys plan) → NodupList (keys (add_before key that plan))
  unfolding add_before
  add_before-NodupList u =
      keys-NodupList that released half_way (keys-NodupList key waiting_node plan u)

  length-added :
      (p : String)
      → length (node (add_before key that plan) p).before
        ≡ (if p == key then suc (length (node plan p).before) else length (node plan p).before)
  length-added p =
      ap length (add_before-before p) ∙ ground (arith, length-snoc that (node plan p).before)

  count-added :
      (p b : String)
      → count p (node (add_before key that plan) b).before_rev ≡ (
          if b == that
          then count p ((node plan b).before_rev ++ key ∷ [])
          else count p (node plan b).before_rev)
  count-added p b = ap (count p) (add_before-before_rev b) ∙ ground arith

  contains-added :
      (p b : String)
      → contains (node (add_before key that plan) b).before_rev p ≡ true
      → (contains (node plan b).before_rev p || key == p) ≡ true
  contains-added p b h =
      let h' = rw (add_before-before_rev b) at h in
      ground (arith, h', contains-snoc p key (node plan b).before_rev)

  degrees-added :
      (p : String)
      → contains (keys plan) key ≡ true
      → contains (keys plan) that ≡ true
      → IsBuilt plan
      → length (node (add_before key that plan) p).before
        ≡ total
            (λ b. count p (node (add_before key that plan) b).before_rev)
            (keys (add_before key that plan))
  degrees-added p key_in that_in built =
      let change =
        total-change that (λ b. count p (node plan b).before_rev)
          (λ b. count p (node (add_before key that plan) b).before_rev) (keys plan) built.nodup
          that_in (λ x other. sym (count-added p x ∙ rw other refl)) in
      ground (
        arith,
        length-added p,
        count-added p that,
        count-snoc p key (node plan that).before_rev,
        built.degrees p,
        change,
        add_before-total key_in that_in
            (λ b. count p (node (add_before key that plan) b).before_rev),
      )

  pub add_before-IsBuilt :
      contains (keys plan) key ≡ true
      → contains (keys plan) that ≡ true
      → IsBuilt plan
      → IsBuilt (add_before key that plan)
  add_before-IsBuilt key_in that_in built = record {
    nodup = add_before-NodupList built.nodup;
    degrees = λ p. degrees-added p key_in that_in built;
    closed = λ b p h.
        add_before-keys key_in that_in p
        ∙ ground (arith, contains-added p b h, built.closed b p, key_in, eq_of_test key p);
  }
