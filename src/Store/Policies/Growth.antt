-- ===== src/Store/Policies/Growth.antt =====
-- pkg/runtime/store/core/policy.go: UpdatePolicy and DeleteFromPolicy lose nothing that is in the
-- store.
use aptomi.Base.{
  ℕ, ◌+◌, ◌≤◌, ◌<◌, ◌^◌, String, Bool, true, false, ◌≡◌, refl, ap, ◌∙◌, subst, Option, none, some,
  List, arith, inl, inr,
}
use aptomi.Base.Lists.{length, All}
use aptomi.Base.Result.{Result, ok, err, Result-cases}
use aptomi.Util.Params.{Value}
use aptomi.Lang.Objects.{Object}
use aptomi.Store.Generations.{last_gen}
use aptomi.Store.Data.{
  PolicyData, Stored, policy_object, policy_data, revision, desired_state, component_instance,
  policy_data_key, storable,
}
use aptomi.Store.Generic.{Generic, Extends-refl, Extends-trans, IsHistory}
use aptomi.Store.Policies.{
  Call, CoreError, get_policy_data, save_policy_data, update_policy, delete_from_policy,
  as_policy_data, and_then,
}
use aptomi.Store.Policies.Calls.{
  Grows, Fresh, IsCall, grown, update_objects-IsCall, delete_objects-IsCall,
}

module _ {S E M : Type 0} (generic : Generic Stored S E) (marshal : Value → Result M String)
    (Valid : ℕ → S → Type 0) (Savable : Stored → Type 0) (Known : String → Type 0)
    (history : IsHistory storable generic Valid Savable Known)
    (savable_data : (pd : PolicyData) → Savable (policy_data pd)) where
  save_policy_data-Grows :
      (changed : Bool) (pd : PolicyData) (by : String) (now n : ℕ) (s t : S)
      → Grows generic marshal Valid Savable Known history savable_data n s t
      → n + 1 < 2 ^ 64
      → pd.generation ≤ n + 1
      → Grows generic marshal Valid Savable Known history savable_data
          (n + 1)
          s
          (save_policy_data generic marshal changed pd by now t).0
  unfolding save_policy_data
  save_policy_data-Grows false pd by now n s t h room bound = record {
    bounded = history.grows n t h.bounded;
    extends = h.extends;
  }
  save_policy_data-Grows true pd by now n s t h room bound =
      let pd' = record pd { updated_at = now; updated_by = by } in
      elim (Result-cases (generic.save (policy_data pd') t)) [
        | inr (e, failed) ↦
            rw (failed, save_policy_data)
              (record { bounded = history.grows n t h.bounded; extends = h.extends })
        | inl (saved, done) ↦
            rw (done, save_policy_data)
              (let kept =
                  (history.save_remains n t (policy_data pd') h.bounded room (savable_data pd')
                      bound).at
                    saved done in
                record {
                  bounded = kept.0;
                  extends = Extends-trans storable generic s t saved.bucket h.extends kept.1;
                })
      ]

  data_inside :
      (o : Option Stored) (pd : PolicyData)
      → ◌≡◌ {A = Result (CoreError E M) (Option PolicyData)} (as_policy_data o) (ok (some pd))
      → o ≡ some (policy_data pd)
  data_inside none pd h = absurd (ground (arith, h))
  data_inside (some (policy_data d)) pd h = ground (arith, h)
  data_inside (some (policy_object o)) pd h = absurd (ground (arith, h))
  data_inside (some (revision o)) pd h = absurd (ground (arith, h))
  data_inside (some (desired_state o)) pd h = absurd (ground (arith, h))
  data_inside (some (component_instance o)) pd h = absurd (ground (arith, h))

  -- The data of the policy is what the store has at its key.
  found_data :
      (gen : ℕ) (s : S) (pd : PolicyData)
      → get_policy_data generic marshal gen s ≡ ok (some pd)
      → generic.get_gen policy_data_key gen s ≡ ok (some (policy_data pd))
  unfolding get_policy_data
  found_data gen s pd h = elim (Result-cases (generic.get_gen policy_data_key gen s)) [
    | inr (e, bad) ↦ absurd (ground (arith, bad, h))
    | inl (o, good) ↦ good ∙ ap ok (data_inside o pd (rw (good) at h))
  ]

  -- What the two calls have in common: the data is read, changed, and saved.
  call-Grows :
      (k n : ℕ) (by : String) (now : ℕ) (s : S) (pd : PolicyData)
      (call : Call S E M (Bool × PolicyData))
      → Valid n s
      → n + k + 1 < 2 ^ 64
      → pd.generation ≤ n
      → IsCall generic marshal Valid Savable Known history savable_data (n + k) s pd.generation call
      → Grows generic marshal Valid Savable Known history savable_data
          (n + k + 1)
          s
          (and_then generic marshal call
            (λ r s'. save_policy_data generic marshal r.0 r.1 by now s')).0
  call-Grows k n by now s pd (t, err e) h room bound done = record {
    bounded = history.grows (n + k) t done.grows.bounded;
    extends = done.grows.extends;
  }
  call-Grows k n by now s pd (t, ok (changed, pd')) h room bound done =
      save_policy_data-Grows changed pd' by now (n + k) s t done.grows room
        (omega (arith, done.same_gen.at (changed, pd') refl, bound))

  unchanged-Grows :
      (k n : ℕ) (s : S)
      → Valid n s
      → Grows generic marshal Valid Savable Known history savable_data (n + k) s s
  unchanged-Grows k n s h = record {
    bounded = grown generic marshal Valid Savable Known history savable_data k n s h;
    extends = Extends-refl storable generic s;
  }

  pub update_policy-Grows :
      (objects : List Object) (by : String) (now n : ℕ) (s : S)
      → Valid n s
      → n + length objects + 1 < 2 ^ 64
      → All (Fresh generic marshal Valid Savable Known history savable_data n) objects
      → Known policy_data_key
      → Grows generic marshal Valid Savable Known history savable_data
          (n + length objects + 1)
          s
          (update_policy generic marshal objects by now s).0
  unfolding update_policy
  update_policy-Grows objects by now n s h room fresh known =
      elim (Result-cases (get_policy_data generic marshal last_gen s)) [
        | inr (e, bad) ↦
            rw (bad, update_policy)
              (subst (λ m. Grows generic marshal Valid Savable Known history savable_data m s s)
                (omega arith) (unchanged-Grows (length objects + 1) n s h))
        | inl (none, bad) ↦
            rw (bad, update_policy)
              (subst (λ m. Grows generic marshal Valid Savable Known history savable_data m s s)
                (omega arith) (unchanged-Grows (length objects + 1) n s h))
        | inl (some pd, good) ↦
            rw (good, update_policy)
              (call-Grows (length objects) n by now s pd _ h room
                (history.last_bound n s policy_data_key (policy_data pd) h (omega (arith, room))
                  known (found_data last_gen s pd good))
                (update_objects-IsCall generic marshal Valid Savable Known history savable_data
                  objects false pd n pd.generation s refl h (omega (arith, room)) fresh))
      ]

  pub delete_from_policy-Grows :
      (objects : List Object) (by : String) (now n : ℕ) (s : S)
      → Valid n s
      → n + length objects + 1 < 2 ^ 64
      → All (Fresh generic marshal Valid Savable Known history savable_data n) objects
      → Known policy_data_key
      → Grows generic marshal Valid Savable Known history savable_data
          (n + length objects + 1)
          s
          (delete_from_policy generic marshal objects by now s).0
  unfolding delete_from_policy
  delete_from_policy-Grows objects by now n s h room fresh known =
      elim (Result-cases (get_policy_data generic marshal last_gen s)) [
        | inr (e, bad) ↦
            rw (bad, delete_from_policy)
              (subst (λ m. Grows generic marshal Valid Savable Known history savable_data m s s)
                (omega arith) (unchanged-Grows (length objects + 1) n s h))
        | inl (none, bad) ↦
            rw (bad, delete_from_policy)
              (subst (λ m. Grows generic marshal Valid Savable Known history savable_data m s s)
                (omega arith) (unchanged-Grows (length objects + 1) n s h))
        | inl (some pd, good) ↦
            rw (good, delete_from_policy)
              (call-Grows (length objects) n by now s pd _ h room
                (history.last_bound n s policy_data_key (policy_data pd) h (omega (arith, room))
                  known (found_data last_gen s pd good))
                (delete_objects-IsCall generic marshal Valid Savable Known history savable_data
                  objects false pd n pd.generation s refl h (omega (arith, room)) fresh))
      ]
