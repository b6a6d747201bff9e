-- ===== src/Store/Policies/Loading.antt =====
-- pkg/runtime/store/core/policy.go: a policy that was read is read again from a store that has more.
use aptomi.Base.{ℕ, String, false, ◌≡◌, Option, none, some, [], ◌∷◌, nat_eq, arith, inl, inr}
use aptomi.Base.Dict.{Dict}
use aptomi.Base.Result.{Result, ok, ◌>>=◌, Result-cases}
use aptomi.Util.Params.{Value}
use aptomi.Lang.Policy.{Policy, new_policy}
use aptomi.Store.Generations.{last_gen}
use aptomi.Store.Objects.{key_from_parts}
use aptomi.Store.Data.{PolicyData, Stored, policy_data_key, storable}
use aptomi.Store.Generic.{Generic, Extends}
use aptomi.Store.Policies.{
  CoreError, get_policy_data, load_object, load_names, load_kinds, load_namespaces,
  get_policy_from_data, get_policy,
}

-- No object stands with the generation 0, which stands for the last one.
abbrev pub GivenNames : Dict ℕ → Type 0
GivenNames [] = Unit
GivenNames ((_, gen) ∷ rest) = (nat_eq gen last_gen ≡ false) × GivenNames rest

abbrev pub GivenKinds : Dict (Dict ℕ) → Type 0
GivenKinds [] = Unit
GivenKinds ((_, names) ∷ rest) = GivenNames names × GivenKinds rest

abbrev pub Given : Dict (Dict (Dict ℕ)) → Type 0
Given [] = Unit
Given ((_, kinds) ∷ rest) = GivenKinds kinds × Given rest

module _ {S E M : Type 0} (generic : Generic Stored S E) (marshal : Value → Result M String)
    (s s' : S) (extends : Extends storable generic s s') where
  -- What has been loaded from the one store is loaded from the other.
  abbrev Again : {A : Type 0} → (S → Result (CoreError E M) A) → Type 0
  Again {A} load = (a : A) → load s ≡ ok a → load s' ≡ ok a

  bind-Again :
      {A B : Type 0} (f : S → Result (CoreError E M) A) (g : A → S → Result (CoreError E M) B)
      → Again f
      → ((a : A) → Again (g a))
      → Again (λ t. f t >>= λ a. g a t)
  bind-Again f g p q b h = elim (Result-cases (f s)) [
    | inl (a, e) ↦ rw (p a e) (q a b (rw (e) at h))
    | inr (x, e) ↦ absurd (ground (arith, e, h))
  ]

  load_object-Again :
      (ns kind name : String) (gen : ℕ) (policy : Policy)
      → nat_eq gen last_gen ≡ false
      → Again (λ t. load_object generic marshal ns kind name gen t policy)
  unfolding load_object
  load_object-Again ns kind name gen policy given p h =
      elim (Result-cases (generic.get_gen (key_from_parts ns kind name) gen s)) [
        | inr (x, e) ↦ absurd (ground (arith, e, h))
        | inl (none, e) ↦ absurd (ground (arith, e, h))
        | inl (some v, e) ↦
            rw (extends.kept (key_from_parts ns kind name) gen v given e) (rw (e) at h)
      ]

  load_names-Again :
      (ns kind : String) (names : Dict ℕ) (policy : Policy)
      → GivenNames names
      → Again (λ t. load_names generic marshal ns kind names t policy)
  unfolding load_names
  load_names-Again ns kind [] policy given = λ p h. h
  load_names-Again ns kind ((name, gen) ∷ rest) policy given =
      bind-Again (λ t. load_object generic marshal ns kind name gen t policy)
        (λ p t. load_names generic marshal ns kind rest t p)
        (load_object-Again ns kind name gen policy given.0)
        (λ p. load_names-Again ns kind rest p given.1)

  load_kinds-Again :
      (ns : String) (kinds : Dict (Dict ℕ)) (policy : Policy)
      → GivenKinds kinds
      → Again (λ t. load_kinds generic marshal ns kinds t policy)
  unfolding load_kinds
  load_kinds-Again ns [] policy given = λ p h. h
  load_kinds-Again ns ((kind, names) ∷ rest) policy given =
      bind-Again (λ t. load_names generic marshal ns kind names t policy)
        (λ p t. load_kinds generic marshal ns rest t p)
        (load_names-Again ns kind names policy given.0) (λ p. load_kinds-Again ns rest p given.1)

  load_namespaces-Again :
      (objects : Dict (Dict (Dict ℕ))) (policy : Policy)
      → Given objects
      → Again (λ t. load_namespaces generic marshal objects t policy)
  unfolding load_namespaces
  load_namespaces-Again [] policy given = λ p h. h
  load_namespaces-Again ((ns, kinds) ∷ rest) policy given =
      bind-Again (λ t. load_kinds generic marshal ns kinds t policy)
        (λ p t. load_namespaces generic marshal rest t p) (load_kinds-Again ns kinds policy given.0)
        (λ p. load_namespaces-Again rest p given.1)

  get_policy_data-Again :
      (gen : ℕ) (pd : PolicyData)
      → nat_eq gen last_gen ≡ false
      → get_policy_data generic marshal gen s ≡ ok (some pd)
      → get_policy_data generic marshal gen s' ≡ ok (some pd)
  unfolding get_policy_data
  get_policy_data-Again gen pd given h =
      elim (Result-cases (generic.get_gen policy_data_key gen s)) [
        | inr (x, e) ↦ absurd (ground (arith, e, h))
        | inl (none, e) ↦ absurd (ground (arith, e, h))
        | inl (some v, e) ↦ rw (extends.kept policy_data_key gen v given e) (rw (e) at h)
      ]

  from_data-Again :
      (pd : PolicyData) → Given pd.objects → Again (get_policy_from_data generic marshal (some pd))
  unfolding get_policy_from_data
  from_data-Again pd given =
      bind-Again (λ t. load_namespaces generic marshal pd.objects t new_policy)
        (λ policy t. ok (some policy, pd.generation))
        (load_namespaces-Again pd.objects new_policy given) (λ policy a h. h)

  -- The data of a policy is there again, and so is each object that it names.
  pub get_policy-Extends :
      (gen : ℕ) (pd : PolicyData) (result : Option Policy × ℕ)
      → nat_eq gen last_gen ≡ false
      → get_policy_data generic marshal gen s ≡ ok (some pd)
      → Given pd.objects
      → get_policy generic marshal gen s ≡ ok result
      → get_policy generic marshal gen s' ≡ ok result
  unfolding get_policy
  get_policy-Extends gen pd result given found all_given h =
      rw (get_policy_data-Again gen pd given found)
        (from_data-Again pd all_given result (rw (found) at h))
