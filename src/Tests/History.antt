-- ===== src/Tests/History.antt =====
-- pkg/runtime/store/core/policy.go: runs over a store in memory that keeps all generations, and the
-- theorem on what a sequence of requests leaves.
use aptomi.Base.{
  ℕ, ◌+◌, ◌≤◌, String, true, false, ◌≡◌, refl, Option, none, some, List, [], ◌∷◌, arith, nat_eq,
  if◌then◌else◌, ◌==◌, string_dec, ◌⊎◌, ◌&&◌, ◌||◌, inl, inr, ap, Bool-cases,
}
use aptomi.Base.Dict.{lookup, insert}
use aptomi.Base.Lists.{length}
use aptomi.Base.Result.{Result, ok, err, ok_injective, ok-OnOk}
use aptomi.Util.Params.{Value, str}
use aptomi.Lang.Objects.{Object, service, contract, cluster, rule, acl_rule, dependency}
use aptomi.Lang.Namespaces
use aptomi.Lang.Namespaces.{new_policy_namespace, put, check_cluster}
use aptomi.Lang.Policy.{Policy, add_object, namespace_for, invalidated_by}
use aptomi.Store.Generations.{last_gen}
use aptomi.Store.Objects.{key_for, key_from_parts}
use aptomi.Store.Bolt.{Saved}
use aptomi.Store.Data.{
  PolicyData, Stored, policy_object, policy_data, revision, desired_state, component_instance,
  generation_of, with_generation, storable, add, with_metadata,
}
use aptomi.Store.Generic.{Generic, IsHistory}
use aptomi.Store.Policies.{
  CoreError, get_policy_data, get_policy, update_policy, update_objects, save_policy_data,
  get_policy_from_data, load_namespaces, load_kinds, load_names, load_object,
}
use aptomi.Store.Policies.Calls.{Fresh}
use aptomi.Store.Policies.Requests.{Request, updating, deleting, after, get_policy-after}

-- The object with a key that was saved last, of all generations or of one.
unfoldable pub find : String → ℕ → List Stored → Option Stored
find key gen [] = none
find key gen (o ∷ rest) =
    let later = find key gen rest in
    if key_for storable o == key && (nat_eq gen last_gen || nat_eq (generation_of o) gen)
    then some o
    else later

unfoldable pub with_key : String → List Stored → List Stored
with_key key [] = []
with_key key (o ∷ rest) =
    let later = with_key key rest in if key_for storable o == key then o ∷ later else later

abbrev pub numbered : Stored → List Stored → Stored
numbered o s = with_generation (length s + 1) o

abbrev pub added : Stored → List Stored → Saved Stored (List Stored)
added o s = record { updated = true; object = numbered o s; bucket = numbered o s ∷ s }

abbrev pub log : Generic Stored (List Stored) String
log = record {
  get = λ key s. ok (find key last_gen s);
  get_gen = λ key gen s. ok (find key gen s);
  list_generations = λ key s. ok (with_key key s);
  save = λ o s. ok (added o s);
  update = λ o s. ok (added o s);
}

abbrev IsLog : ℕ → List Stored → Type 0
IsLog n [] = Unit
IsLog n (o ∷ rest) =
    (length rest + 1 ≤ n) × (generation_of o ≤ length rest + 1) × IsLog (length rest) rest

IsLog-le : (n m : ℕ) (s : List Stored) → n ≤ m → IsLog n s → IsLog m s
IsLog-le n m [] le h = tt
IsLog-le n m (o ∷ rest) le h = (omega (arith, h.0, le), h.1, h.2)

length-le : (n : ℕ) (s : List Stored) → IsLog n s → length s ≤ n
length-le n [] h = omega arith
length-le n (o ∷ rest) h = omega (arith, h.0)

find-le :
    (n : ℕ) (s : List Stored) (key : String) (gen : ℕ) (o : Stored)
    → IsLog n s
    → find key gen s ≡ some o
    → generation_of o ≤ n
unfolding find
find-le n [] key gen o h found = absurd (ground (arith, found))
find-le n (p ∷ rest) key gen o h found =
    elim (Bool-cases
      (key_for storable p == key && (nat_eq gen last_gen || nat_eq (generation_of p) gen))) [
        | inl here ↦
            let same : p ≡ o = ground (arith, here, found) in
            ground (arith, ap generation_of same, h.0, h.1)
        | inr later ↦
            omega
              (arith, find-le (length rest) rest key gen o h.2 (ground (arith, later, found)), h.0)
      ]

find-gen :
    (s : List Stored) (key : String) (gen : ℕ) (o : Stored)
    → nat_eq gen last_gen ≡ false
    → find key gen s ≡ some o
    → generation_of o ≡ gen
unfolding find
find-gen [] key gen o given found = absurd (ground (arith, found))
find-gen (p ∷ rest) key gen o given found =
    elim (Bool-cases
      (key_for storable p == key && (nat_eq gen last_gen || nat_eq (generation_of p) gen))) [
        | inl here ↦
            let same : p ≡ o = ground (arith, here, found) in
            ground (arith, ap generation_of same, here, given)
        | inr later ↦ find-gen rest key gen o given (ground (arith, later, found))
      ]

numbered-cases :
    (g : ℕ) (o : Stored)
    → (generation_of (with_generation g o) ≡ g) ⊎ (generation_of (with_generation g o) ≡ 0)
unfolding with_metadata
numbered-cases g (policy_object (service o)) = inl refl
numbered-cases g (policy_object (contract o)) = inl refl
numbered-cases g (policy_object (cluster o)) = inl refl
numbered-cases g (policy_object (rule o)) = inl refl
numbered-cases g (policy_object (acl_rule o)) = inl refl
numbered-cases g (policy_object (dependency o)) = inl refl
numbered-cases g (policy_data o) = inl refl
numbered-cases g (revision o) = inl refl
numbered-cases g (desired_state o) = inr refl
numbered-cases g (component_instance o) = inr refl

same-IsLog : (n : ℕ) (s : List Stored) → IsLog n s → IsLog (length s) s
same-IsLog n [] h = tt
same-IsLog n (o ∷ rest) h = (omega arith, h.1, h.2)

find-added :
    (n : ℕ) (s : List Stored) (o v : Stored) (key : String) (gen : ℕ)
    → IsLog n s
    → nat_eq gen last_gen ≡ false
    → find key gen s ≡ some v
    → find key gen (numbered o s ∷ s) ≡ some v
unfolding find
find-added n s o v key gen h given found =
    let same = find-gen s key gen v given found in
    let le = find-le (length s) s key gen v (same-IsLog n s h) found in
    elim (numbered-cases (length s + 1) o) [
      | inl new ↦ ground (arith, new, same, le, given, found)
      | inr none_new ↦ ground (arith, none_new, given, found)
    ]

added-IsLog : (n : ℕ) (s : List Stored) (o : Stored) → IsLog n s → IsLog (n + 1) (numbered o s ∷ s)
added-IsLog n s o h = (
  omega (arith, length-le n s h),
  elim (numbered-cases (length s + 1) o) [
    | inl new ↦ omega (arith, new)
    | inr new ↦ omega (arith, new)
  ],
  same-IsLog n s h,
)

abbrev Any : {A : Type 0} → A → Type 0
Any _ = Unit

log-IsHistory : IsHistory storable log IsLog Any Any
log-IsHistory = record {
  grows = λ n s h. IsLog-le n (n + 1) s (omega arith) h;
  last_bound = λ n s key o h _ _ found. find-le n s key last_gen o h (ok_injective _ _ found);
  save_remains = λ n s o h _ _ _. ok-OnOk _ (added o s) (
    added-IsLog n s o h,
    record {
      kept =
          λ key g v given found. ap ok (find-added n s o v key g h given (ok_injective _ _ found));
    },
  );
}

abbrev pub marshal : Value → Result String String
marshal (str s) = ok s
marshal _ = err "not a text"

abbrev pub west : String → Object
west config = cluster (record {
  metadata = record { namespace = "main"; name = "west"; generation = 0; deleted = false };
  type = "kubernetes";
  labels = [];
  config = str config;
})

abbrev pub no_policy : List Stored
no_policy =
    policy_data (record { generation = 1; updated_at = 0; updated_by = "admin"; objects = [] }) ∷ []

-- A store with two generations of the policy, of which the second has a cluster.
abbrev pub one_cluster : List Stored
one_cluster = after log marshal (updating (west "a" ∷ []) "alice" 10 ∷ []) no_policy

abbrev later_requests : List Request
later_requests = updating (west "b" ∷ []) "bob" 20 ∷ deleting (west "b" ∷ []) "alice" 30 ∷ []

abbrev data_of : Result (CoreError String String) (Option PolicyData) → Option PolicyData
data_of (ok d) = d
data_of (err _) = none

abbrev result_of : Result (CoreError String String) (Option Policy × ℕ) → Option Policy × ℕ
result_of (ok r) = r
result_of (err _) = (none, 0)

abbrev cluster_data : PolicyData
cluster_data = record {
  generation = 3;
  updated_at = 10;
  updated_by = "alice";
  objects = ("main", ("cluster", ("west", 2) ∷ []) ∷ []) ∷ [];
}

cluster_data_test : get_policy_data log marshal 3 one_cluster ≡ ok (some cluster_data)
unfolding get_policy_data find update_policy string_dec key_for key_from_parts update_objects
    save_policy_data add insert with_metadata lookup
cluster_data_test = refl

abbrev pub cluster_policy : Option Policy × ℕ
cluster_policy = (
  some (record {
    namespace =
        (
          "main",
          record (new_policy_namespace "main") {
            clusters =
                (
                  "west",
                  record {
                    metadata = record {
                      namespace = "main";
                      name = "west";
                      generation = 2;
                      deleted = false;
                    };
                    type = "kubernetes";
                    labels = [];
                    config = str "a";
                  },
                )
                ∷ [];
          },
        )
        ∷ [];
    acl_resolver = none;
  }),
  3,
)

cluster_policy_test : get_policy log marshal 3 one_cluster ≡ ok cluster_policy
unfolding get_policy_data find update_policy string_dec key_for key_from_parts update_objects
    save_policy_data add insert with_metadata lookup get_policy get_policy_from_data load_namespaces
    load_kinds load_names load_object add_object namespace_for invalidated_by Namespaces.add_object
    put check_cluster
cluster_policy_test = refl

one_cluster-IsLog : IsLog 3 one_cluster
unfolding get_policy_data find update_policy string_dec key_for key_from_parts update_objects
    save_policy_data add insert with_metadata lookup
one_cluster-IsLog =
    (omega arith, omega arith, (omega arith, omega arith, (omega arith, omega arith, tt)))

fresh : (config : String) → Fresh log marshal IsLog Any Any log-IsHistory (λ _. tt) 3 (west config)
fresh config = record { savable = tt; savable_deleted = tt; bound = omega arith }

get_policy-after_example :
    get_policy log marshal 3 (after log marshal later_requests one_cluster) ≡ ok cluster_policy
get_policy-after_example =
    get_policy-after log marshal IsLog Any Any log-IsHistory (λ _. tt) tt later_requests 3 3
      one_cluster cluster_data cluster_policy one_cluster-IsLog (omega arith)
      ((fresh "b", tt), ((fresh "b", tt), tt)) refl cluster_data_test (((refl, tt), tt), tt)
      cluster_policy_test
