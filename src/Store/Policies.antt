-- ===== src/Store/Policies.antt =====
-- pkg/runtime/store/core/policy.go: policies in the store. The lock makes each call a step of its own;
-- a panic is an error. What an earlier call of Save has stored stays after an error.
pub mod Loading
pub mod Calls
pub mod Growth
pub mod Requests
pub mod Durable
use aptomi.Base.{
  ℕ, String, Bool, true, false, not, ◌||◌, Option, none, some, List, [], ◌∷◌, if◌then◌else◌,
}
use aptomi.Base.Dict.{Dict}
use aptomi.Base.Result.{Result, ok, err, ◌>>=◌}
use aptomi.Util.Params.{Value}
use aptomi.Lang.Namespaces.{PolicyError}
use aptomi.Lang.Objects.{Object, metadata}
use aptomi.Lang.Policy.{Policy, new_policy, add_object}
use aptomi.Store.Generations.{last_gen}
use aptomi.Store.Objects.{key_from_parts, key_for}
use aptomi.Store.Bolt.{Saved}
use aptomi.Store.Data.{
  PolicyData, Stored, policy_object, policy_data, revision, desired_state, component_instance,
  policy_data_key, add, remove, with_metadata, set_deleted, generation_of, storable,
}
use aptomi.Store.Generic.{Generic}

pub data CoreError (E M : Type 0) : Type 0 where
  from_store : E → CoreError E M
  unexpected_type : CoreError E M
  no_policy_data : CoreError E M
  deleted_in_update : (key : String) → CoreError E M
  setting_deleted : (key : String) → E → CoreError E M
  not_an_object : (key : String) → CoreError E M
  refused : PolicyError M → CoreError E M

-- A call that may change the store also when it fails.
abbrev pub Call : Type 0 → Type 0 → Type 0 → Type 0 → Type 0
Call S E M A = S × Result (CoreError E M) A

abbrev pub as_policy_data :
    {E M : Type 0} → Option Stored → Result (CoreError E M) (Option PolicyData)
as_policy_data none = ok none
as_policy_data (some (policy_data d)) = ok (some d)
as_policy_data (some _) = err unexpected_type

abbrev as_object : {E M : Type 0} → String → Option Stored → Result (CoreError E M) Object
as_object key (some (policy_object o)) = ok o
as_object key _ = err (not_an_object key)

-- The object with the generation that it got when it was saved.
abbrev pub with_saved : Stored → Object → Object
with_saved saved = with_metadata (λ m. record m { generation = generation_of saved })

module _ {S E M : Type 0} (generic : Generic Stored S E) (marshal : Value → Result M String) where
  abbrev stored_ok : {A : Type 0} → Result E A → Result (CoreError E M) A
  stored_ok (ok a) = ok a
  stored_ok (err e) = err (from_store e)

  -- GetPolicyData
  unfoldable pub get_policy_data : ℕ → S → Result (CoreError E M) (Option PolicyData)
  get_policy_data gen s = stored_ok (generic.get_gen policy_data_key gen s) >>= as_policy_data

  abbrev added : Policy × Option (PolicyError M) → Result (CoreError E M) Policy
  added (policy, none) = ok policy
  added (policy, some e) = err (refused e)

  -- The body of the loops of getPolicyFromData.
  unfoldable pub load_object :
      String → String → String → ℕ → S → Policy → Result (CoreError E M) Policy
  load_object ns kind name gen s policy =
      stored_ok (generic.get_gen (key_from_parts ns kind name) gen s) >>= λ found.
      as_object (key_from_parts ns kind name) found >>= λ o. added (add_object marshal o policy)

  unfoldable pub load_names : String → String → Dict ℕ → S → Policy → Result (CoreError E M) Policy
  load_names ns kind [] s policy = ok policy
  load_names ns kind ((name, gen) ∷ rest) s policy =
      load_object ns kind name gen s policy >>= load_names ns kind rest s

  unfoldable pub load_kinds : String → Dict (Dict ℕ) → S → Policy → Result (CoreError E M) Policy
  load_kinds ns [] s policy = ok policy
  load_kinds ns ((kind, names) ∷ rest) s policy =
      load_names ns kind names s policy >>= load_kinds ns rest s

  unfoldable pub load_namespaces : Dict (Dict (Dict ℕ)) → S → Policy → Result (CoreError E M) Policy
  load_namespaces [] s policy = ok policy
  load_namespaces ((ns, kinds) ∷ rest) s policy =
      load_kinds ns kinds s policy >>= load_namespaces rest s

  -- getPolicyFromData, with the generation of the data.
  unfoldable pub get_policy_from_data :
      Option PolicyData → S → Result (CoreError E M) (Option Policy × ℕ)
  get_policy_from_data none s = ok (none, last_gen)
  get_policy_from_data (some pd) s =
      load_namespaces pd.objects s new_policy >>= λ policy. ok (some policy, pd.generation)

  -- GetPolicy
  unfoldable pub get_policy : ℕ → S → Result (CoreError E M) (Option Policy × ℕ)
  get_policy gen s = get_policy_data gen s >>= λ pd. get_policy_from_data pd s

  -- The end of UpdatePolicy and of DeleteFromPolicy.
  unfoldable pub save_policy_data :
      Bool → PolicyData → String → ℕ → S → Call S E M (Bool × PolicyData)
  save_policy_data false pd performed_by now s = (s, ok (false, pd))
  save_policy_data true pd performed_by now s =
      let pd' = record pd { updated_at = now; updated_by = performed_by } in
      elim (generic.save (policy_data pd') s) [
        | err e ↦ (s, err (from_store e))
        | ok saved ↦
            (saved.bucket, ok (true, record pd' { generation = generation_of saved.object }))
      ]

  -- The loop of UpdatePolicy.
  unfoldable pub update_objects :
      List Object → Bool → PolicyData → S → Call S E M (Bool × PolicyData)
  update_objects [] changed pd s = (s, ok (changed, pd))
  update_objects (o ∷ rest) changed pd s = elim (metadata o).deleted [
    | true ↦ (s, err (deleted_in_update (key_for storable (policy_object o))))
    | false ↦ elim (generic.save (policy_object o) s) [
      | err e ↦ (s, err (from_store e))
      | ok saved ↦
          update_objects rest (changed || saved.updated)
            (if saved.updated then add (with_saved saved.object o) pd else pd) saved.bucket
    ]
  ]

  abbrev pub and_then : {A B : Type 0} → Call S E M A → (A → S → Call S E M B) → Call S E M B
  and_then (s, err e) f = (s, err e)
  and_then (s, ok a) f = f a s

  -- UpdatePolicy
  unfoldable pub update_policy : List Object → String → ℕ → S → Call S E M (Bool × PolicyData)
  update_policy updated performed_by now s = elim (get_policy_data last_gen s) [
    | err e ↦ (s, err e)
    | ok none ↦ (s, err no_policy_data)
    | ok (some pd) ↦
        and_then (update_objects updated false pd s)
          (λ r s'. save_policy_data r.0 r.1 performed_by now s')
  ]

  -- The loop of DeleteFromPolicy.
  unfoldable pub delete_objects :
      List Object → Bool → PolicyData → S → Call S E M (Bool × PolicyData)
  delete_objects [] changed pd s = (s, ok (changed, pd))
  delete_objects (o ∷ rest) changed pd s =
      let removed = remove o pd in
      elim (metadata o).deleted [
        | true ↦ delete_objects rest (changed || removed.1) removed.0 s
        | false ↦ elim (generic.save (policy_object (set_deleted true o)) s) [
          | err e ↦ (s, err (setting_deleted (key_for storable (policy_object o)) e))
          | ok saved ↦ delete_objects rest (changed || removed.1) removed.0 saved.bucket
        ]
      ]

  -- DeleteFromPolicy, for a store that has data of a policy.
  unfoldable pub delete_from_policy : List Object → String → ℕ → S → Call S E M (Bool × PolicyData)
  delete_from_policy deleted performed_by now s = elim (get_policy_data last_gen s) [
    | err e ↦ (s, err e)
    | ok none ↦ (s, err no_policy_data)
    | ok (some pd) ↦
        and_then (delete_objects deleted false pd s)
          (λ r s'. save_policy_data r.0 r.1 performed_by now s')
  ]
