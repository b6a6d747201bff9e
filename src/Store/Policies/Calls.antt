-- ===== src/Store/Policies/Calls.antt =====
-- pkg/runtime/store/core/policy.go: the loops of UpdatePolicy and DeleteFromPolicy lose nothing that is
-- in the store.
use aptomi.Base.{
  ℕ, zero, suc, if◌then◌else◌, ◌+◌, ◌≤◌, ◌<◌, ◌^◌, String, Bool, true, false, ◌||◌, ◌≡◌, refl, sym,
  ◌∙◌, subst, List, [], ◌∷◌, arith, inl, inr, Bool-cases,
}
use aptomi.Base.Lists.{length, All, All-map}
use aptomi.Base.Result.{Result, ok, err, Result-cases, OnOk, ok-OnOk, err-OnOk}
use aptomi.Util.Params.{Value}
use aptomi.Lang.Objects.{Object, metadata}
use aptomi.Store.Bolt.{Saved}
use aptomi.Store.Data.{
  PolicyData, Stored, policy_object, policy_data, storable, add, remove, set_deleted, with_metadata,
}
use aptomi.Store.Generic.{Generic, Extends, Extends-refl, Extends-trans, IsHistory}
use aptomi.Store.Policies.{Call, CoreError, update_objects, delete_objects, with_saved}

added_gen :
    (updated : Bool) (o : Object) (pd : PolicyData)
    → (if updated then add o pd else pd).generation ≡ pd.generation
unfolding add
added_gen true o pd = refl
added_gen false o pd = refl

removed_gen : (o : Object) (pd : PolicyData) → (remove o pd).0.generation ≡ pd.generation
unfolding remove
removed_gen o pd = ground arith

deleted_gen : (o : Object) → (metadata (set_deleted true o)).generation ≡ (metadata o).generation
unfolding with_metadata
deleted_gen o = ground arith

module _ {S E M : Type 0} (generic : Generic Stored S E) (marshal : Value → Result M String)
    (Valid : ℕ → S → Type 0) (Savable : Stored → Type 0) (Known : String → Type 0)
    (history : IsHistory storable generic Valid Savable Known)
    (savable_data : (pd : PolicyData) → Savable (policy_data pd)) where
  -- A store with at most `n` generations becomes one that has all it had.
  pub record Grows (n : ℕ) (s s' : S) : Type 0 where
    pub bounded : Valid n s'
    pub extends : Extends storable generic s s'

  -- The objects of a request: they can be saved, and their generations are of the store.
  pub record Fresh (n : ℕ) (o : Object) : Type 0 where
    pub savable : Savable (policy_object o)
    pub savable_deleted : Savable (policy_object (set_deleted true o))
    pub bound : (metadata o).generation ≤ n + 1

  -- What a call gives that keeps the generation of the data.
  pub record IsCall (n : ℕ) (s : S) (gen : ℕ) (call : Call S E M (Bool × PolicyData)) : Type 0 where
    pub grows : Grows n s call.0
    pub same_gen : OnOk (λ (r : Bool × PolicyData). r.1.generation ≡ gen) call.1

  pub grown : (k n : ℕ) (s : S) → Valid n s → Valid (n + k) s
  grown zero n s h = subst (λ m. Valid m s) (omega arith) h
  grown (suc k) n s h =
      subst (λ m. Valid m s) (omega arith) (history.grows (n + k) s (grown k n s h))

  -- A call that has failed before it has changed anything.
  failed-IsCall :
      (k n gen : ℕ) (s : S) (e : CoreError E M) → Valid n s → IsCall (n + k) s gen (s, err e)
  failed-IsCall k n gen s e h = record {
    grows = record { bounded = grown k n s h; extends = Extends-refl storable generic s };
    same_gen = err-OnOk _ e;
  }

  later-IsCall :
      (k n gen : ℕ) (s : S) (call : Call S E M (Bool × PolicyData))
      → IsCall (n + k) s gen call
      → IsCall (n + suc k) s gen call
  later-IsCall k n gen s call h = record {
    grows = record {
      bounded =
          subst (λ m. Valid m call.0) (omega arith) (history.grows (n + k) call.0 h.grows.bounded);
      extends = h.grows.extends;
    };
    same_gen = h.same_gen;
  }

  -- What comes after one object has been saved.
  saved-IsCall :
      (k n gen : ℕ) (s : S) (o : Stored) (saved : Saved Stored S)
      (call : Call S E M (Bool × PolicyData))
      → Valid n s
      → n + 1 < 2 ^ 64
      → Savable o
      → storable.get_generation o ≤ n + 1
      → generic.save o s ≡ ok saved
      → (Valid (n + 1) saved.bucket → IsCall (n + 1 + k) saved.bucket gen call)
      → IsCall (n + suc k) s gen call
  saved-IsCall k n gen s o saved call h room can bound done next =
      let kept = (history.save_remains n s o h room can bound).at saved done in
      let rest = next kept.0 in
      record {
        grows = record {
          bounded = subst (λ m. Valid m call.0) (omega arith) rest.grows.bounded;
          extends = Extends-trans storable generic s saved.bucket call.0 kept.1 rest.grows.extends;
        };
        same_gen = rest.same_gen;
      }

  next-Fresh : (n : ℕ) (o : Object) → Fresh n o → Fresh (n + 1) o
  next-Fresh n o h = record {
    savable = h.savable;
    savable_deleted = h.savable_deleted;
    bound = omega (arith, h.bound);
  }

  pub update_objects-IsCall :
      (objects : List Object) (changed : Bool) (pd : PolicyData) (n gen : ℕ) (s : S)
      → pd.generation ≡ gen
      → Valid n s
      → n + length objects < 2 ^ 64
      → All (Fresh n) objects
      → IsCall (n + length objects) s gen (update_objects generic marshal objects changed pd s)
  unfolding update_objects
  update_objects-IsCall [] changed pd n gen s same h room fresh = record {
    grows = record { bounded = grown 0 n s h; extends = Extends-refl storable generic s };
    same_gen = ok-OnOk _ (changed, pd) same;
  }
  update_objects-IsCall (o ∷ rest) changed pd n gen s same h room (fresh, others) =
      elim (Bool-cases (metadata o).deleted) [
        | inl deleted ↦ rw (deleted, update_objects) (failed-IsCall (suc (length rest)) n gen s _ h)
        | inr alive ↦ elim (Result-cases (generic.save (policy_object o) s)) [
          | inr (e, failed) ↦
              rw (alive, failed, update_objects) (failed-IsCall (suc (length rest)) n gen s _ h)
          | inl (saved, done) ↦
              rw (alive, done, update_objects)
                (saved-IsCall (length rest) n gen s (policy_object o) saved _ h
                  (omega (arith, room)) fresh.savable fresh.bound done
                  (λ h'.
                    update_objects-IsCall rest (changed || saved.updated)
                      (if saved.updated then add (with_saved saved.object o) pd else pd) (n + 1) gen
                      saved.bucket (added_gen saved.updated (with_saved saved.object o) pd ∙ same)
                      h' (omega (arith, room))
                      (All-map (Fresh n) (Fresh (n + 1)) rest (next-Fresh n) others)))
        ]
      ]

  pub delete_objects-IsCall :
      (objects : List Object) (changed : Bool) (pd : PolicyData) (n gen : ℕ) (s : S)
      → pd.generation ≡ gen
      → Valid n s
      → n + length objects < 2 ^ 64
      → All (Fresh n) objects
      → IsCall (n + length objects) s gen (delete_objects generic marshal objects changed pd s)
  unfolding delete_objects
  delete_objects-IsCall [] changed pd n gen s same h room fresh = record {
    grows = record { bounded = grown 0 n s h; extends = Extends-refl storable generic s };
    same_gen = ok-OnOk _ (changed, pd) same;
  }
  delete_objects-IsCall (o ∷ rest) changed pd n gen s same h room (fresh, others) =
      let gen_lem = removed_gen o pd ∙ same in
      let rest_fresh = All-map (Fresh n) (Fresh (n + 1)) rest (next-Fresh n) others in
      elim (Bool-cases (metadata o).deleted) [
        | inl deleted ↦
            rw (deleted, delete_objects)
              (later-IsCall (length rest) n gen s _ (
                delete_objects-IsCall rest (changed || (remove o pd).1) (remove o pd).0 n gen s
                  gen_lem h (omega (arith, room)) others))
        | inr alive ↦ elim (Result-cases (generic.save (policy_object (set_deleted true o)) s)) [
          | inr (e, failed) ↦
              rw (alive, failed, delete_objects) (failed-IsCall (suc (length rest)) n gen s _ h)
          | inl (saved, done) ↦
              rw (alive, done, delete_objects)
                (saved-IsCall (length rest) n gen s (policy_object (set_deleted true o)) saved _ h
                  (omega (arith, room)) fresh.savable_deleted
                  (subst (λ g. g ≤ n + 1) (sym (deleted_gen o)) fresh.bound) done
                  (λ h'.
                    delete_objects-IsCall rest (changed || (remove o pd).1) (remove o pd).0 (n + 1)
                      gen saved.bucket gen_lem h' (omega (arith, room)) rest_fresh))
        ]
      ]
