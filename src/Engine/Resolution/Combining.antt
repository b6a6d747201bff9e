-- ===== src/Engine/Resolution/Combining.antt =====
-- pkg/engine/resolve: how AppendData combines instances, and what Validate accepts.
use aptomi.Base.{
  String, Bool, true, false, ◌&&◌, ◌||◌, ◌≡◌, ◌⊎◌, refl, inl, inr, Option, Option-cases, Bool-cases,
  none, some, [], ◌∷◌, ◌==◌, nat_eq, arith, if◌then◌else◌,
}
use aptomi.Base.Dict.{Dict, lookup, insert, NodupKeys, lookup-insert, has-none}
use aptomi.Util.Params.{Params, size, deep_equal, bool_eq}
use aptomi.Engine.Instances.{
  ComponentInstance, combine_params, add_code_params, add_discovery_params, append_code,
  append_params, put_all,
}
use aptomi.Engine.Instances
use aptomi.Engine.Resolution.{PolicyResolution, is_none, append_instance, append_data}

abbrev pub or_else {ℓ} : {A : Type ℓ} → Option A → Option A → Option A
or_else none b = b
or_else (some a) b = some a

lookup-put_all {ℓ} :
    {V : Type ℓ} (k : String) (from to : Dict V)
    → NodupKeys from
    → lookup k (put_all from to) ≡ or_else (lookup k from) (lookup k to)
unfolding put_all lookup
lookup-put_all k [] to h = refl
lookup-put_all k ((j, v) ∷ rest) to (fresh, h) =
    ground (arith, lookup-put_all k rest (insert j v to) h, lookup-insert k j v to, has-none k rest)

-- Whether parameters may be added to those that an instance has.
abbrev pub compatible : Params → Params → Bool
compatible existing new = nat_eq (size existing) 0 || deep_equal existing new

combine_params-cases :
    (p q : Params)
    → ((compatible p q ≡ false) × (combine_params p q ≡ none))
      ⊎ ((r : Params) × (compatible p q ≡ true) × (combine_params p q ≡ some r))
unfolding combine_params
combine_params-cases p q = elim (Bool-cases (nat_eq (size p) 0)) [
  | inl e ↦ inr (q, ground (arith, e), ground (arith, e))
  | inr e ↦ elim (Bool-cases (deep_equal p q)) [
    | inl f ↦ inr (p, ground (arith, e, f), ground (arith, e, f))
    | inr f ↦ inl (ground (arith, e, f), ground (arith, e, f))
  ]
]

append_code-error :
    (ops i : ComponentInstance)
    → is_none (append_code ops i).error
      ≡ (is_none i.error && compatible i.calculated_code_params ops.calculated_code_params)
unfolding append_code add_code_params
append_code-error ops i =
    elim (combine_params-cases i.calculated_code_params ops.calculated_code_params) [
      | inl (clash, e) ↦ ground (arith, clash, e)
      | inr (r, fits, e) ↦ ground (arith, fits, e)
    ]

append_params-error :
    (ops i : ComponentInstance)
    → is_none (append_params ops i).error ≡ (
        is_none i.error
        && (compatible i.calculated_discovery ops.calculated_discovery
            && compatible i.calculated_code_params ops.calculated_code_params))
unfolding append_params add_discovery_params
append_params-error ops i =
    elim (combine_params-cases i.calculated_discovery ops.calculated_discovery) [
      | inl (clash, e) ↦ ground (arith, clash, e)
      | inr (r, fits, e) ↦
          ground (arith, fits, e, append_code-error ops (record i { calculated_discovery = r }))
    ]

-- An instance is without an error after another one has been added exactly when it was before, both
-- are code or both are not, and neither the discovery parameters nor the code parameters are in
-- conflict.
pub append_data-error :
    (ops i : ComponentInstance)
    → is_none (Instances.append_data ops i).error ≡ (
        is_none i.error
        && (bool_eq i.is_code ops.is_code
            && (compatible i.calculated_discovery ops.calculated_discovery
                && compatible i.calculated_code_params ops.calculated_code_params)))
unfolding Instances.append_data
append_data-error ops i = ground (
  arith,
  append_params-error ops (
      Instances.add_instance_labels ops.calculated_labels (record i {
        dependency_keys = put_all ops.dependency_keys i.dependency_keys;
        is_code = i.is_code || ops.is_code;
      })),
)

append_code-dependency_keys :
    (ops i : ComponentInstance) → (append_code ops i).dependency_keys ≡ i.dependency_keys
unfolding append_code add_code_params
append_code-dependency_keys ops i =
    elim (Option-cases (combine_params i.calculated_code_params ops.calculated_code_params)) [
      | inl e ↦ ground (arith, e)
      | inr (r, e) ↦ ground (arith, e)
    ]

append_params-dependency_keys :
    (ops i : ComponentInstance) → (append_params ops i).dependency_keys ≡ i.dependency_keys
unfolding append_params add_discovery_params
append_params-dependency_keys ops i =
    elim (Option-cases (combine_params i.calculated_discovery ops.calculated_discovery)) [
      | inl e ↦ ground (arith, e)
      | inr (r, e) ↦
          ground (arith, e, append_code-dependency_keys ops (record i { calculated_discovery = r }))
    ]

-- A dependency keeps an instance after AppendData exactly when it kept one of the two that are
-- combined, at the depth of the added one if it kept both; also if the two are in conflict.
pub lookup-dependency_keys :
    (d : String) (ops i : ComponentInstance)
    → NodupKeys ops.dependency_keys
    → lookup d (Instances.append_data ops i).dependency_keys
      ≡ or_else (lookup d ops.dependency_keys) (lookup d i.dependency_keys)
unfolding Instances.append_data
lookup-dependency_keys d ops i h = ground (
  arith,
  append_params-dependency_keys ops (
      Instances.add_instance_labels ops.calculated_labels (record i {
        dependency_keys = put_all ops.dependency_keys i.dependency_keys;
        is_code = i.is_code || ops.is_code;
      })),
  lookup-put_all d ops.dependency_keys i.dependency_keys h,
)

-- What the combined resolution holds for a key.
abbrev pub combined : Option ComponentInstance → Option ComponentInstance → Option ComponentInstance
combined none there = there
combined (some i) none = some i
combined (some i) (some j) = some (Instances.append_data i j)

lookup-append_instance :
    (k key : String) (i : ComponentInstance) (resolution : PolicyResolution)
    → lookup k (append_instance key i resolution)
      ≡ (if k == key then combined (some i) (lookup key resolution) else lookup k resolution)
unfolding append_instance
lookup-append_instance k key i resolution = elim (Option-cases (lookup key resolution)) [
  | inl missing ↦ ground (arith, missing, lookup-insert k key i resolution)
  | inr (j, at) ↦ ground (arith, at, lookup-insert k key (Instances.append_data i j) resolution)
]

-- After AppendData a key has the instance of the one resolution that has it, and the combination if
-- both have it.
pub lookup-append_data :
    (k : String) (ops resolution : PolicyResolution)
    → NodupKeys ops
    → lookup k (append_data ops resolution) ≡ combined (lookup k ops) (lookup k resolution)
unfolding append_data lookup
lookup-append_data k [] resolution h = refl
lookup-append_data k ((key, i) ∷ ops) resolution (fresh, h) = ground (
  arith,
  lookup-append_data k ops (append_instance key i resolution) h,
  lookup-append_instance k key i resolution,
  has-none k ops,
)
