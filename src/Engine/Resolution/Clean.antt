-- ===== src/Engine/Resolution/Clean.antt =====
-- pkg/engine/resolve/policy_resolution.go: the Record methods keep every instance under its own key,
-- and set no errors in instances.
use aptomi.Base.{
  ℕ, String, true, ◌≡◌, refl, ap, ◌∙◌, Option, none, some, arith, [], ◌∷◌, inl, inr, Option-cases,
  Bool-cases,
}
use aptomi.Base.Dict.{lookup}
use aptomi.Base.Entries.{Each, Each-insert, Each-lookup}
use aptomi.Base.Result.{Result, ok, Result-cases}
use aptomi.Util.Params.{Params, bool_eq}
use aptomi.Lang.Labels.{Labels}
use aptomi.Lang.Objects.{dependency, Dependency}
use aptomi.Lang.Rules.{RuleActionResult}
use aptomi.Engine.Keys.{ComponentInstanceKey, get_key}
use aptomi.Engine.Instances.{
  ComponentInstance, InstanceError, add_code_params, add_discovery_params, combine_params,
  add_dependency, add_rule_information, add_instance_labels, add_edge_out, append_code,
  append_params,
}
use aptomi.Engine.Instances
use aptomi.Engine.Resolution.{
  append_instance, append_data, key_for_storable, PolicyResolution, get_component_instance_entry,
  change_entry, try_change, record_resolved, record_labels, record_code_params,
  record_discovery_params, store_edge,
}

-- The instance stands under its own key and has no error.
pub record IsClean (k : String) (i : ComponentInstance) : Type 0 where
  pub keyed : get_key i.key ≡ k
  pub no_error : i.error ≡ none

abbrev pub Clean : PolicyResolution → Type 0
Clean = Each IsClean

entry-IsClean :
    (cik : ComponentInstanceKey) (r : PolicyResolution)
    → Clean r
    → IsClean (get_key cik) (get_component_instance_entry cik r)
unfolding get_component_instance_entry
entry-IsClean cik r h = elim (Option-cases (lookup (get_key cik) r)) [
  | inl missing ↦
      rw (missing, get_component_instance_entry) (record { keyed = refl; no_error = refl })
  | inr (i, at) ↦ rw (at, get_component_instance_entry) (Each-lookup IsClean (get_key cik) i r h at)
]

change_entry-Clean :
    (f : ComponentInstance → ComponentInstance) (cik : ComponentInstanceKey) (r : PolicyResolution)
    → ((i : ComponentInstance) → (f i).key ≡ i.key)
    → ((i : ComponentInstance) → (f i).error ≡ i.error)
    → Clean r
    → Clean (change_entry f cik r)
change_entry-Clean f cik r same_key same_error h =
    let entry = get_component_instance_entry cik r in
    let clean = entry-IsClean cik r h in
    Each-insert IsClean (get_key cik) (f entry) r
      (record {
        keyed = ap get_key (same_key entry) ∙ clean.keyed;
        no_error = same_error entry ∙ clean.no_error;
      })
      h

try_change-Clean :
    (f : ComponentInstance → Result InstanceError ComponentInstance) (cik : ComponentInstanceKey)
    (r : PolicyResolution)
    → ((i j : ComponentInstance) → f i ≡ ok j → (j.key ≡ i.key) × (j.error ≡ i.error))
    → Clean r
    → Clean (try_change f cik r).0
try_change-Clean f cik r same h =
    let entry = get_component_instance_entry cik r in
    let clean = entry-IsClean cik r h in
    elim (Result-cases (f entry)) [
      | inl (j, e) ↦
          rw (e, try_change)
            (Each-insert IsClean (get_key cik) j r
              (record {
                keyed = ap get_key (same entry j e).0 ∙ clean.keyed;
                no_error = (same entry j e).1 ∙ clean.no_error;
              })
              h)
      | inr (x, e) ↦ rw (e, try_change) (Each-insert IsClean (get_key cik) entry r clean h)
    ]

pub code_params-same :
    (p : Params) (i j : ComponentInstance)
    → add_code_params p i ≡ ok j
    → (j.key ≡ i.key) × (j.error ≡ i.error)
unfolding add_code_params
code_params-same p i j h = ground (arith, h)

pub discovery_params-same :
    (p : Params) (i j : ComponentInstance)
    → add_discovery_params p i ≡ ok j
    → (j.key ≡ i.key) × (j.error ≡ i.error)
unfolding add_discovery_params
discovery_params-same p i j h = ground (arith, h)

pub record_resolved-Clean :
    (cik : ComponentInstanceKey) (d : Dependency) (depth : ℕ) (result : RuleActionResult)
    (r : PolicyResolution)
    → Clean r
    → Clean (record_resolved cik d depth result r)
unfolding record_resolved
record_resolved-Clean cik d depth result r h =
    change_entry-Clean
      (λ i. add_rule_information result (add_dependency (key_for_storable (dependency d)) depth i))
      cik r (λ i. refl) (λ i. refl) h

pub record_labels-Clean :
    (cik : ComponentInstanceKey) (labels : Labels) (r : PolicyResolution)
    → Clean r
    → Clean (record_labels cik labels r)
unfolding record_labels
record_labels-Clean cik labels r h =
    change_entry-Clean (add_instance_labels labels) cik r (λ i. refl) (λ i. refl) h

pub store_edge-Clean :
    (src dst : Option ComponentInstanceKey) (r : PolicyResolution)
    → Clean r
    → Clean (store_edge src dst r)
unfolding store_edge
store_edge-Clean none dst r h = h
store_edge-Clean (some src) none r h = h
store_edge-Clean (some src) (some dst) r h =
    change_entry-Clean (add_edge_out (get_key dst)) src r (λ i. refl) (λ i. refl) h

pub record_code_params-Clean :
    (cik : ComponentInstanceKey) (p : Params) (r : PolicyResolution)
    → Clean r
    → Clean (record_code_params cik p r).0
unfolding record_code_params
record_code_params-Clean cik p r h =
    try_change-Clean (add_code_params p) cik _ (code_params-same p)
      (change_entry-Clean (λ i. record i { is_code = true }) cik r (λ i. refl) (λ i. refl) h)

pub record_discovery_params-Clean :
    (cik : ComponentInstanceKey) (p : Params) (r : PolicyResolution)
    → Clean r
    → Clean (record_discovery_params cik p r).0
unfolding record_discovery_params
record_discovery_params-Clean cik p r h =
    try_change-Clean (add_discovery_params p) cik r (discovery_params-same p) h

-- The instance stands under its own key.
abbrev pub Keyed : String → ComponentInstance → Type 0
Keyed k i = get_key i.key ≡ k

pub Clean-Keyed : (r : PolicyResolution) → Clean r → Each Keyed r
Clean-Keyed [] h = tt
Clean-Keyed ((k, i) ∷ r) h = (h.0.keyed, Clean-Keyed r h.1)

append_code-key : (ops i : ComponentInstance) → (append_code ops i).key ≡ i.key
unfolding append_code add_code_params
append_code-key ops i =
    elim (Option-cases (combine_params i.calculated_code_params ops.calculated_code_params)) [
      | inl e ↦ rw (e, append_code) refl
      | inr (p, e) ↦ rw (e, append_code) refl
    ]

append_params-key : (ops i : ComponentInstance) → (append_params ops i).key ≡ i.key
unfolding append_params add_discovery_params
append_params-key ops i =
    elim (Option-cases (combine_params i.calculated_discovery ops.calculated_discovery)) [
      | inl e ↦ rw (e, append_params) refl
      | inr (p, e) ↦ rw (e, append_params) (append_code-key ops _)
    ]

append_data-key : (ops i : ComponentInstance) → (Instances.append_data ops i).key ≡ i.key
unfolding Instances.append_data
append_data-key ops i = elim (Bool-cases (bool_eq i.is_code ops.is_code)) [
  | inl e ↦ rw (e) (append_params-key ops _)
  | inr e ↦ rw (e) refl
]

append_instance-Keyed :
    (k : String) (i : ComponentInstance) (r : PolicyResolution)
    → Keyed k i
    → Each Keyed r
    → Each Keyed (append_instance k i r)
unfolding append_instance
append_instance-Keyed k i r keyed h = elim (Option-cases (lookup k r)) [
  | inl e ↦ rw (e, append_instance) (Each-insert Keyed k i r keyed h)
  | inr (j, e) ↦
      rw (e, append_instance)
        (Each-insert Keyed k (Instances.append_data i j) r
          (ap get_key (append_data-key i j) ∙ Each-lookup Keyed k j r h e) h)
]

pub append_data-Keyed :
    (ops r : PolicyResolution) → Each Keyed ops → Each Keyed r → Each Keyed (append_data ops r)
unfolding append_data
append_data-Keyed [] r hops h = h
append_data-Keyed ((k, i) ∷ ops) r hops h =
    append_data-Keyed ops _ hops.1 (append_instance-Keyed k i r hops.0 h)
