-- ===== src/Tests/ActualState.antt =====
-- pkg/runtime/store/core/actualstate_updater.go: a store in memory, a run, and the theorem on sequences
-- of calls.
use aptomi.Base.{
  String, true, false, ◌≡◌, refl, ap, ◌∙◌, subst, Option, none, some, List, [], ◌∷◌, ◌==◌,
  if◌then◌else◌,
}
use aptomi.Base.Dict.{Dict, lookup, insert, erase, lookup-insert, lookup-erase}
use aptomi.Base.Result.{Result, ok, ok_injective}
use aptomi.Engine.Keys.{ComponentInstanceKey, get_key}
use aptomi.Engine.Instances.{ComponentInstance, new_component_instance}
use aptomi.Store.Objects.{key_for}
use aptomi.Store.Bolt.{Saved}
use aptomi.Store.Data.{Stored, component_instance, storable}
use aptomi.Store.Generic.{Generic}
use aptomi.Store.ActualState.{Updater, storable_key}
use aptomi.Store.ActualState.Agreement.{
  KeepsInstances, Agrees, Change, creating, updating, deleting, apply_all, apply_all-Agrees,
}
use aptomi.Store.ActualState.Keeping.{same_storable_key, ok_if}

abbrev Store : Type 0
Store = Dict Stored

abbrev saved_in : Stored → Store → Saved Stored Store
saved_in o s = record { updated = false; object = o; bucket = insert (key_for storable o) o s }

abbrev memory : Generic Stored Store String
memory = record {
  get = λ key s. ok (lookup key s);
  get_gen = λ key gen s. ok none;
  list_generations = λ key s. ok [];
  save = λ o s. ok (saved_in o s);
  update = λ o s. ok (saved_in o s);
}

abbrev list : String → Store → Result String (List Stored)
list key s = ok []

abbrev delete : String → Store → Result String Store
delete key s = ok (erase key s)

saved_lookup :
    (key : String) (i : ComponentInstance) (s : Store)
    → lookup (storable_key key) (insert (storable_key (get_key i.key)) (component_instance i) s)
      ≡ (if key == get_key i.key then some (component_instance i) else lookup (storable_key key) s)
saved_lookup key i s =
    rw
      (
        lookup-insert (storable_key key) (storable_key (get_key i.key)) (component_instance i) s,
        same_storable_key key (get_key i.key),
      )
      refl

keeps : KeepsInstances memory list delete
unfolding key_for
keeps = record {
  get-save = λ key i s saved done.
      let after = ok_injective (saved_in (component_instance i) s) saved done in
      subst
        (λ x. ◌≡◌ {A = Result String (Option Stored)} (ok (lookup (storable_key key) x.bucket)) (
          if key == get_key i.key
          then ok (some (component_instance i))
          else ok (lookup (storable_key key) s)))
        after (ok_if (key == get_key i.key) _ _ _ (saved_lookup key i s));
  get-delete = λ key gone s s' done.
      subst
        (λ x.
          ◌≡◌ {A = Result String (Option Stored)} (ok (lookup (storable_key key) x))
            (if key == gone then ok none else ok (lookup (storable_key key) s)))
        (ok_injective (erase (storable_key gone) s) s' done)
        (ok_if (key == gone) _ _ _ (
          lookup-erase (storable_key key) (storable_key gone) s
          ∙ ap (λ b. if b then none else lookup (storable_key key) s)
              (same_storable_key key gone)));
}

abbrev key_of : String → ComponentInstanceKey
key_of name = record {
  cluster_name = "west";
  cluster_namespace = "main";
  target_suffix = "";
  namespace = "main";
  contract_name = "web";
  context_name = "test";
  keys_resolved = "";
  context_name_with_keys = "test";
  service_name = "web";
  component_name = name;
}

abbrev changes : List (Change memory list delete)
changes =
    creating (new_component_instance (key_of "app")) 7
    ∷ updating "no such key" (λ i. record i { is_code = true }) 8
    ∷ updating (get_key (key_of "app")) (λ i. record i { is_code = true }) 9
    ∷ deleting "no such key"
    ∷ []

abbrev nothing : Updater Store
nothing = record { store = []; actual_state = [] }

nothing-Agrees : Agrees memory list delete nothing
unfolding lookup
nothing-Agrees = record { same = λ key. refl }

apply_all-Agrees_example : Agrees memory list delete (apply_all memory list delete changes nothing)
apply_all-Agrees_example = apply_all-Agrees memory list delete keeps changes nothing nothing-Agrees
