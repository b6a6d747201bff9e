-- ===== src/Engine/Resolution/Kept.antt =====
-- pkg/engine/resolve/policy_resolution.go: the Record methods keep an entry and its key.
use aptomi.Base.{
  ℕ, String, true, ◌≡◌, refl, sym, ◌∙◌, Option, none, some, arith, ◌==◌, inl, inr, Bool-cases,
  eq_of_test,
}
use aptomi.Base.Dict.{lookup, insert, lookup-insert}
use aptomi.Base.Result.{Result, ok, Result-cases}
use aptomi.Util.Params.{Params}
use aptomi.Lang.Labels.{Labels}
use aptomi.Lang.Objects.{dependency, Dependency}
use aptomi.Lang.Rules.{RuleActionResult}
use aptomi.Engine.Keys.{ComponentInstanceKey, get_key}
use aptomi.Engine.Instances.{
  ComponentInstance, InstanceError, new_component_instance, add_code_params, add_discovery_params,
  add_dependency, add_rule_information, add_instance_labels, add_edge_out,
}
use aptomi.Engine.Resolution.{
  PolicyResolution, key_for_storable, get_component_instance_entry, change_entry, try_change,
  record_resolved, record_labels, record_code_params, record_discovery_params, store_edge,
}
use aptomi.Engine.Resolution.Clean.{code_params-same, discovery_params-same}

-- The resolution has an entry at `k`, for the given key.
pub record HasEntry (k : String) (key : ComponentInstanceKey) (r : PolicyResolution) : Type 0 where
  pub instance : ComponentInstance
  pub at : lookup k r ≡ some instance
  pub same : instance.key ≡ key

entry-key :
    (k : String) (key cik : ComponentInstanceKey) (r : PolicyResolution)
    → k ≡ get_key cik
    → HasEntry k key r
    → (get_component_instance_entry cik r).key ≡ key
unfolding get_component_instance_entry
entry-key k key cik r path h = rw (sym path, h.at, get_component_instance_entry) h.same

-- An entry put at the place where the resolution has one keeps its key.
insert-HasEntry :
    (k : String) (key cik : ComponentInstanceKey) (i : ComponentInstance) (r : PolicyResolution)
    → i.key ≡ (get_component_instance_entry cik r).key
    → HasEntry k key r
    → HasEntry k key (insert (get_key cik) i r)
insert-HasEntry k key cik i r same_key h = elim (Bool-cases (k == get_key cik)) [
  | inl same ↦
      let path = eq_of_test k (get_key cik) same in
      record {
        instance = i;
        at = ground (arith, lookup-insert k (get_key cik) i r, same);
        same = same_key ∙ entry-key k key cik r path h;
      }
  | inr other ↦ record {
    instance = h.instance;
    at = ground (arith, lookup-insert k (get_key cik) i r, other, h.at);
    same = h.same;
  }
]

change_entry-HasEntry :
    (f : ComponentInstance → ComponentInstance) (k : String) (key cik : ComponentInstanceKey)
    (r : PolicyResolution)
    → ((i : ComponentInstance) → (f i).key ≡ i.key)
    → HasEntry k key r
    → HasEntry k key (change_entry f cik r)
change_entry-HasEntry f k key cik r same_key h =
    insert-HasEntry k key cik (f (get_component_instance_entry cik r)) r
      (same_key (get_component_instance_entry cik r)) h

try_change-HasEntry :
    (f : ComponentInstance → Result InstanceError ComponentInstance) (k : String)
    (key cik : ComponentInstanceKey) (r : PolicyResolution)
    → ((i j : ComponentInstance) → f i ≡ ok j → (j.key ≡ i.key) × (j.error ≡ i.error))
    → HasEntry k key r
    → HasEntry k key (try_change f cik r).0
try_change-HasEntry f k key cik r same_key h =
    let entry = get_component_instance_entry cik r in
    elim (Result-cases (f entry)) [
      | inl (j, e) ↦ rw (e, try_change) (insert-HasEntry k key cik j r (same_key entry j e).0 h)
      | inr (x, e) ↦ rw (e, try_change) (insert-HasEntry k key cik entry r refl h)
    ]

pub record_resolved-HasEntry :
    (k : String) (key cik : ComponentInstanceKey) (d : Dependency) (depth : ℕ)
    (result : RuleActionResult) (r : PolicyResolution)
    → HasEntry k key r
    → HasEntry k key (record_resolved cik d depth result r)
unfolding record_resolved
record_resolved-HasEntry k key cik d depth result r h =
    change_entry-HasEntry
      (λ i. add_rule_information result (add_dependency (key_for_storable (dependency d)) depth i))
      k key cik r (λ i. refl) h

pub record_labels-HasEntry :
    (k : String) (key cik : ComponentInstanceKey) (labels : Labels) (r : PolicyResolution)
    → HasEntry k key r
    → HasEntry k key (record_labels cik labels r)
unfolding record_labels
record_labels-HasEntry k key cik labels r h =
    change_entry-HasEntry (add_instance_labels labels) k key cik r (λ i. refl) h

pub store_edge-HasEntry :
    (k : String) (key : ComponentInstanceKey) (src dst : Option ComponentInstanceKey)
    (r : PolicyResolution)
    → HasEntry k key r
    → HasEntry k key (store_edge src dst r)
unfolding store_edge
store_edge-HasEntry k key none dst r h = h
store_edge-HasEntry k key (some src) none r h = h
store_edge-HasEntry k key (some src) (some dst) r h =
    change_entry-HasEntry (add_edge_out (get_key dst)) k key src r (λ i. refl) h

pub record_code_params-HasEntry :
    (k : String) (key cik : ComponentInstanceKey) (p : Params) (r : PolicyResolution)
    → HasEntry k key r
    → HasEntry k key (record_code_params cik p r).0
unfolding record_code_params
record_code_params-HasEntry k key cik p r h =
    try_change-HasEntry (add_code_params p) k key cik _ (code_params-same p)
      (change_entry-HasEntry (λ i. record i { is_code = true }) k key cik r (λ i. refl) h)

pub record_discovery_params-HasEntry :
    (k : String) (key cik : ComponentInstanceKey) (p : Params) (r : PolicyResolution)
    → HasEntry k key r
    → HasEntry k key (record_discovery_params cik p r).0
unfolding record_discovery_params
record_discovery_params-HasEntry k key cik p r h =
    try_change-HasEntry (add_discovery_params p) k key cik r (discovery_params-same p) h

-- Labels for a key that has no entry make one.
pub new-HasEntry :
    (key : ComponentInstanceKey) (labels : Labels) (r : PolicyResolution)
    → lookup (get_key key) r ≡ none
    → HasEntry (get_key key) key (record_labels key labels r)
unfolding record_labels get_component_instance_entry
new-HasEntry key labels r missing = record {
  instance = add_instance_labels labels (new_component_instance key);
  at = ground (
    arith,
    missing,
    lookup-insert (get_key key) (get_key key)
        (add_instance_labels labels (get_component_instance_entry key r)) r,
  );
  same = refl;
}

-- The entry at `k`, for the given key, is marked as kept by a dependency at a depth.
pub record IsMarked (k : String) (key : ComponentInstanceKey) (dep : String) (depth : ℕ)
    (r : PolicyResolution) : Type 0 where
  pub instance : ComponentInstance
  pub at : lookup k r ≡ some instance
  pub same : instance.key ≡ key
  pub kept : lookup dep instance.dependency_keys ≡ some depth

-- The entry for the key is marked as kept by the dependency at the given depth.
pub record_resolved-IsMarked :
    (k : String) (key cik : ComponentInstanceKey) (d : Dependency) (depth : ℕ)
    (result : RuleActionResult) (r : PolicyResolution)
    → get_key cik ≡ k
    → HasEntry k key r
    → IsMarked k key (key_for_storable (dependency d)) depth (record_resolved cik d depth result r)
unfolding record_resolved get_component_instance_entry
record_resolved-IsMarked k key cik d depth result r path h =
    let entry = get_component_instance_entry cik r in
    let dep = key_for_storable (dependency d) in
    let i = add_rule_information result (add_dependency dep depth entry) in
    record {
      instance = i;
      at = ground (arith, lookup-insert k (get_key cik) i r, path);
      same = entry-key k key cik r (sym path) h;
      kept = ground (arith, lookup-insert dep dep depth entry.dependency_keys);
    }
