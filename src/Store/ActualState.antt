-- ===== src/Store/ActualState.antt =====
-- pkg/runtime/store/core/actualstate.go and actualstate_updater.go: the actual state, in the store and
-- in memory. The lock makes each call a step of its own.
pub mod Agreement
pub mod Keeping
use aptomi.Base.{ℕ, String, Option, none, some, List, [], ◌∷◌}
use aptomi.Base.Dict.{lookup, insert, erase}
use aptomi.Base.Result.{Result, ok, err, ◌>>=◌}
use aptomi.Lang.Objects.{system_ns}
use aptomi.Engine.Keys.{get_key}
use aptomi.Engine.Instances.{ComponentInstance}
use aptomi.Engine.Resolution.{PolicyResolution}
use aptomi.Store.Objects.{key_from_parts}
use aptomi.Store.Bolt.{Saved}
use aptomi.Store.Data.{
  Stored, policy_object, policy_data, revision, desired_state, component_instance,
}
use aptomi.Store.Generic.{Generic}

pub data ActualError (E : Type 0) : Type 0 where
  from_store : E → ActualError E
  not_an_instance : (key : String) → ActualError E

-- The actualStateUpdater: its store and its actual state.
pub record Updater (S : Type 0) : Type 0 where
  pub store : S
  pub actual_state : PolicyResolution

-- storableKeyForComponent
abbrev pub storable_key : String → String
storable_key = key_from_parts system_ns "component-instance"

abbrev as_instance :
    {E : Type 0} → String → Option Stored → Result (ActualError E) ComponentInstance
as_instance key (some (component_instance i)) = ok i
as_instance key _ = err (not_an_instance key)

-- The loop of GetActualState, which leaves out what is no instance.
unfoldable pub put_instances : List Stored → PolicyResolution → PolicyResolution
put_instances [] actual = actual
put_instances (component_instance i ∷ rest) actual =
    put_instances rest (insert (get_key i.key) i actual)
put_instances (_ ∷ rest) actual = put_instances rest actual

-- List and Delete of the store are the functions `list` and `delete`.
module _ {S E : Type 0} (generic : Generic Stored S E) (list : String → S → Result E (List Stored))
    (delete : String → S → Result E S) where
  abbrev stored_ok : {A : Type 0} → Result E A → Result (ActualError E) A
  stored_ok (ok a) = ok a
  stored_ok (err e) = err (from_store e)

  -- GetActualState
  unfoldable pub get_actual_state : S → Result (ActualError E) PolicyResolution
  get_actual_state s = stored_ok (list (storable_key "") s) >>= λ os. ok (put_instances os [])

  -- GetComponentInstance
  unfoldable pub get_component_instance : String → Updater S → Option ComponentInstance
  get_component_instance key u = lookup key u.actual_state

  -- save, and what follows it in both callers.
  unfoldable pub save_instance : ComponentInstance → Updater S → Result (ActualError E) (Updater S)
  save_instance i u = stored_ok (generic.save (component_instance i) u.store) >>= λ saved.
      ok (record { store = saved.bucket; actual_state = insert (get_key i.key) i u.actual_state })

  -- CreateComponentInstance
  unfoldable pub create_instance :
      ℕ → ComponentInstance → Updater S → Result (ActualError E) (Updater S)
  create_instance now i = save_instance (record i { created_at = now; updated_at = now })

  -- loadComponentInstance
  unfoldable pub load_instance : String → Updater S → Result (ActualError E) ComponentInstance
  load_instance key u = stored_ok (generic.get (storable_key key) u.store) >>= as_instance key

  -- UpdateComponentInstance
  unfoldable pub update_instance :
      String
      → (ComponentInstance → ComponentInstance)
      → ℕ
      → Updater S
      → Result (ActualError E) (Updater S)
  update_instance key change now u =
      load_instance key u >>= λ i. save_instance (change (record i { updated_at = now })) u

  -- DeleteComponentInstance
  unfoldable pub delete_instance : String → Updater S → Result (ActualError E) (Updater S)
  delete_instance key u = stored_ok (delete (storable_key key) u.store) >>= λ s.
      ok (record { store = s; actual_state = erase key u.actual_state })
