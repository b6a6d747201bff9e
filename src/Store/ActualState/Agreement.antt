-- ===== src/Store/ActualState/Agreement.antt =====
-- pkg/runtime/store/core/actualstate_updater.go: the actual state in memory is that of the store.
use aptomi.Base.{
  ℕ, String, ◌≡◌, refl, inl, inr, Option, none, some, List, [], ◌∷◌, ◌==◌, Bool-cases,
  if◌then◌else◌,
}
use aptomi.Base.Dict.{lookup, insert, erase, lookup-insert, lookup-erase}
use aptomi.Base.Result.{Result, ok, err, OnOk, ok-OnOk, any-OnOk, bind-OnOk, Result-cases, err-OnOk}
use aptomi.Engine.Keys.{get_key}
use aptomi.Engine.Instances.{ComponentInstance}
use aptomi.Store.Bolt.{Saved}
use aptomi.Store.Data.{Stored, component_instance}
use aptomi.Store.Generic.{Generic}
use aptomi.Store.ActualState.{
  ActualError, Updater, storable_key, save_instance, create_instance, update_instance,
  delete_instance, load_instance,
}

abbrev pub stored_instance : Option ComponentInstance → Option Stored
stored_instance none = none
stored_instance (some i) = some (component_instance i)

module _ {S E : Type 0} (generic : Generic Stored S E) (list : String → S → Result E (List Stored))
    (delete : String → S → Result E S) where
  -- What the updater relies on: an instance that has been saved is there, one that has been deleted is
  -- not, and others are as before.
  pub record KeepsInstances : Type 0 where
    pub get-save :
        (key : String) (i : ComponentInstance) (s : S) (saved : Saved Stored S)
        → generic.save (component_instance i) s ≡ ok saved
        → generic.get (storable_key key) saved.bucket ≡ (
            if key == get_key i.key
            then ok (some (component_instance i))
            else generic.get (storable_key key) s)
    pub get-delete :
        (key gone : String) (s s' : S)
        → delete (storable_key gone) s ≡ ok s'
        → generic.get (storable_key key) s'
          ≡ (if key == gone then ok none else generic.get (storable_key key) s)

  -- The store has just the instances that are in memory.
  pub record Agrees (u : Updater S) : Type 0 where
    pub same :
        (key : String)
        → generic.get (storable_key key) u.store ≡ ok (stored_instance (lookup key u.actual_state))

  -- A call of one of the three methods that change the state.
  pub data Change : Type 0 where
    creating : ComponentInstance → (now : ℕ) → Change
    updating : (key : String) → (ComponentInstance → ComponentInstance) → (now : ℕ) → Change
    deleting : (key : String) → Change

  abbrev pub apply : Change → Updater S → Result (ActualError E) (Updater S)
  apply (creating i now) = create_instance generic list delete now i
  apply (updating key change now) = update_instance generic list delete key change now
  apply (deleting key) = delete_instance generic list delete key

  abbrev kept : Updater S → Result (ActualError E) (Updater S) → Updater S
  kept u (ok u') = u'
  kept u (err _) = u

  -- After a sequence of calls. One that fails leaves the state as it is.
  unfoldable pub apply_all : List Change → Updater S → Updater S
  apply_all [] u = u
  apply_all (c ∷ rest) u = apply_all rest (kept u (apply c u))

  module _ (keeps : KeepsInstances) where
    saved-Agrees :
        (i : ComponentInstance) (u : Updater S) (saved : Saved Stored S)
        → Agrees u
        → generic.save (component_instance i) u.store ≡ ok saved
        → Agrees (record {
          store = saved.bucket;
          actual_state = insert (get_key i.key) i u.actual_state;
        })
    saved-Agrees i u saved h done = record {
      same = λ key. elim (Bool-cases (key == get_key i.key)) [
        | inl e ↦
            rw
              (
                keeps.get-save key i u.store saved done,
                lookup-insert key (get_key i.key) i u.actual_state,
                e,
              )
              refl
        | inr e ↦
            rw
              (
                keeps.get-save key i u.store saved done,
                lookup-insert key (get_key i.key) i u.actual_state,
                e,
              )
              (h.same key)
      ];
    }

    save_instance-Agrees :
        (i : ComponentInstance) (u : Updater S)
        → Agrees u
        → OnOk Agrees (save_instance generic list delete i u)
    unfolding save_instance
    save_instance-Agrees i u h = elim (Result-cases (generic.save (component_instance i) u.store)) [
      | inl (saved, done) ↦
          rw (done, save_instance) (ok-OnOk Agrees _ (saved-Agrees i u saved h done))
      | inr (e, failed) ↦ rw (failed, save_instance) (err-OnOk Agrees _)
    ]

    deleted-Agrees :
        (gone : String) (u : Updater S) (s : S)
        → Agrees u
        → delete (storable_key gone) u.store ≡ ok s
        → Agrees (record { store = s; actual_state = erase gone u.actual_state })
    deleted-Agrees gone u s h done = record {
      same = λ key. elim (Bool-cases (key == gone)) [
        | inl e ↦
            rw (keeps.get-delete key gone u.store s done, lookup-erase key gone u.actual_state, e)
              refl
        | inr e ↦
            rw (keeps.get-delete key gone u.store s done, lookup-erase key gone u.actual_state, e)
              (h.same key)
      ];
    }

    apply-Agrees : (c : Change) (u : Updater S) → Agrees u → OnOk Agrees (apply c u)
    unfolding create_instance update_instance delete_instance
    apply-Agrees (creating i now) u h =
        save_instance-Agrees (record i { created_at = now; updated_at = now }) u h
    apply-Agrees (updating key change now) u h =
        bind-OnOk Agrees _ _ (any-OnOk (load_instance generic list delete key u))
          (λ i _ _. save_instance-Agrees (change (record i { updated_at = now })) u h)
    apply-Agrees (deleting key) u h = elim (Result-cases (delete (storable_key key) u.store)) [
      | inl (s, done) ↦
          rw (done, delete_instance) (ok-OnOk Agrees _ (deleted-Agrees key u s h done))
      | inr (e, failed) ↦ rw (failed, delete_instance) (err-OnOk Agrees _)
    ]

    -- If the store keeps what is saved and nothing that is deleted, then the store and the actual state
    -- in memory have the same instances after any sequence of calls, whether they fail or not, if they
    -- had the same before.
    pub apply_all-Agrees :
        (changes : List Change) (u : Updater S) → Agrees u → Agrees (apply_all changes u)
    unfolding apply_all
    apply_all-Agrees [] u h = h
    apply_all-Agrees (c ∷ rest) u h = elim (Result-cases (apply c u)) [
      | inl (u', done) ↦
          rw (done, apply_all) (apply_all-Agrees rest u' ((apply-Agrees c u h).at u' done))
      | inr (e, failed) ↦ rw (failed, apply_all) (apply_all-Agrees rest u h)
    ]
