-- ===== src/Engine/Resolution/Valid.antt =====
-- pkg/engine/resolve/policy_resolution.go: what Validate accepts.
use aptomi.Base.{
  String, ◌≡◌, ◌⊎◌, refl, subst, sym, Option, none, some, inl, inr, List, [], ◌∷◌, Bool-cases,
  Option-cases, arith,
}
use mathlib.Core.Option.{some-injective}
use aptomi.Base.Result.{Result, ok, err, then-ok}
use aptomi.Base.Lists.{All}
use aptomi.Lang.Objects.{
  Object, service, contract, cluster, rule, acl_rule, dependency, Context, Contract, Service,
}
use aptomi.Lang.Policy.{Policy, get_object}
use aptomi.Lang.Namespaces.{PolicyError}
use aptomi.Engine.Keys.{ComponentInstanceKey, root_name}
use aptomi.Engine.Instances.{ComponentInstance}
use aptomi.Engine.Resolution.Named.{
  HasContext, HasComponent, has_context_sound, has_context_complete, has_component_sound,
  has_component_complete,
}
use aptomi.Engine.Resolution.{
  PolicyResolution, find_object, contexts_of, service_of, has_context, has_component,
  validate_cluster, validate_service, validate_contract, validate_errors, validate_keys, validate,
}

module _ (policy : Policy) (k : ComponentInstanceKey) where
  -- The policy has the contract of the key, and the contract the context.
  pub record HasKeyContext : Type 0 where
    pub contract_object : Contract
    pub there :
        get_object {E = Unit {0}} "contract" k.contract_name k.namespace policy
        ≡ ok (some (contract contract_object))
    pub context : HasContext k.context_name contract_object.contexts

  -- The policy has the service of the key, and the service the component, unless it is the root.
  pub record HasKeyComponent : Type 0 where
    pub service_object : Service
    pub there :
        get_object {E = Unit {0}} "service" k.service_name k.namespace policy
        ≡ ok (some (service service_object))
    pub component : (k.component_name ≡ root_name) ⊎ HasComponent k.component_name service_object

  -- The policy has the cluster of the key.
  pub record HasKeyCluster : Type 0 where
    pub cluster_object : Object
    pub there :
        get_object {E = Unit {0}} "cluster" k.cluster_name k.cluster_namespace policy
        ≡ ok (some cluster_object)

  contract_found :
      (r : Result (PolicyError (Unit {0})) (Option Object)) (xs : List Context)
      → contexts_of (elim r [ ok o ↦ o | err _ ↦ none ]) ≡ some xs
      → (c : Contract) × (r ≡ ok (some (contract c))) × (c.contexts ≡ xs)
  contract_found (ok (some (contract c))) xs e = (c, refl, some-injective _ _ e)
  contract_found (ok (some (service _))) xs e = cc
  contract_found (ok (some (cluster _))) xs e = cc
  contract_found (ok (some (rule _))) xs e = cc
  contract_found (ok (some (acl_rule _))) xs e = cc
  contract_found (ok (some (dependency _))) xs e = cc
  contract_found (ok none) xs e = cc
  contract_found (err _) xs e = cc

  service_found :
      (r : Result (PolicyError (Unit {0})) (Option Object)) (s : Service)
      → service_of (elim r [ ok o ↦ o | err _ ↦ none ]) ≡ some s
      → r ≡ ok (some (service s))
  service_found (ok (some (service t))) s e = cc (some-injective _ _ e)
  service_found (ok (some (contract _))) s e = cc
  service_found (ok (some (cluster _))) s e = cc
  service_found (ok (some (rule _))) s e = cc
  service_found (ok (some (acl_rule _))) s e = cc
  service_found (ok (some (dependency _))) s e = cc
  service_found (ok none) s e = cc
  service_found (err _) s e = cc

  object_found :
      (r : Result (PolicyError (Unit {0})) (Option Object)) (o : Object)
      → elim r [ ok x ↦ x | err _ ↦ none ] ≡ some o
      → r ≡ ok (some o)
  object_found (ok x) o e = cc
  object_found (err _) o e = cc

  validate_contract_sound : validate_contract policy k ≡ ok tt → HasKeyContext
  unfolding validate_contract find_object
  validate_contract_sound h =
      elim (Option-cases
        (contexts_of (find_object "contract" k.contract_name k.namespace policy))) [
          | inl missing ↦ absurd (ground (arith, missing, h))
          | inr (xs, found) ↦
              let (c, there, same) = contract_found _ xs found in
              elim (Bool-cases (has_context k.context_name xs)) [
                | inl has ↦ record {
                  contract_object = c;
                  there = there;
                  context =
                      subst (HasContext k.context_name) (sym same)
                        (has_context_sound k.context_name xs has);
                }
                | inr other ↦ absurd (ground (arith, found, other, h))
              ]
        ]

  validate_contract_complete : HasKeyContext → validate_contract policy k ≡ ok tt
  unfolding validate_contract find_object
  validate_contract_complete h =
      let (c, there, named) = h.context in
      rw
        (
          validate_contract,
          find_object,
          h.there,
          has_context_complete k.context_name h.contract_object.contexts c there named,
        )
        refl

  validate_service_sound : validate_service policy k ≡ ok tt → HasKeyComponent
  unfolding validate_service find_object
  validate_service_sound h =
      elim (Option-cases (service_of (find_object "service" k.service_name k.namespace policy))) [
        | inl missing ↦ absurd (ground (arith, missing, h))
        | inr (s, found) ↦ elim (Bool-cases (has_component k.component_name s)) [
          | inl has ↦ record {
            service_object = s;
            there = service_found _ s found;
            component = has_component_sound k.component_name s has;
          }
          | inr other ↦ absurd (ground (arith, found, other, h))
        ]
      ]

  validate_service_complete : HasKeyComponent → validate_service policy k ≡ ok tt
  unfolding validate_service find_object
  validate_service_complete h =
      rw
        (
          validate_service,
          find_object,
          h.there,
          has_component_complete k.component_name h.service_object h.component,
        )
        refl

  validate_cluster_sound : validate_cluster policy k ≡ ok tt → HasKeyCluster
  unfolding validate_cluster find_object
  validate_cluster_sound h =
      elim (Option-cases (find_object "cluster" k.cluster_name k.cluster_namespace policy)) [
        | inl missing ↦ absurd (ground (arith, missing, h))
        | inr (o, found) ↦ record { cluster_object = o; there = object_found _ o found }
      ]

  validate_cluster_complete : HasKeyCluster → validate_cluster policy k ≡ ok tt
  unfolding validate_cluster find_object
  validate_cluster_complete h = rw (validate_cluster, find_object, h.there) refl

  -- The policy has all that the key names.
  abbrev pub HasKey : Type 0
  HasKey = HasKeyContext × HasKeyComponent × HasKeyCluster

-- No instance has an error, and the policy has all that the keys of the instances name.
pub record IsValidResolution (policy : Policy) (r : PolicyResolution) : Type 0 where
  pub error_free : All (λ (e : String × ComponentInstance). e.1.error ≡ none) r
  pub keys : All (λ (e : String × ComponentInstance). HasKey policy e.1.key) r

validate_errors_iff :
    (r : PolicyResolution)
    → (validate_errors r ≡ ok tt → All (λ (e : String × ComponentInstance). e.1.error ≡ none) r)
      × (All (λ (e : String × ComponentInstance). e.1.error ≡ none) r → validate_errors r ≡ ok tt)
unfolding validate_errors
validate_errors_iff [] = (λ _. tt, λ _. refl)
validate_errors_iff ((_, i) ∷ rest) = elim (Option-cases i.error) [
  | inl free ↦ (
    λ h. (free, (validate_errors_iff rest).0 (ground (arith, free, h))),
    λ h. rw (validate_errors, h.0) ((validate_errors_iff rest).1 h.1),
  )
  | inr (e, bad) ↦ (λ h. absurd (ground (arith, bad, h)), λ h. absurd (cc (bad, h.0)))
]

validate_keys_sound :
    (policy : Policy) (r : PolicyResolution)
    → validate_keys policy r ≡ ok tt
    → All (λ (e : String × ComponentInstance). HasKey policy e.1.key) r
unfolding validate_keys
validate_keys_sound policy [] h = tt
validate_keys_sound policy ((_, i) ∷ rest) h =
    let (before, others) = then-ok _ (validate_keys policy rest) h in
    let (named, has_cluster) = then-ok _ (validate_cluster policy i.key) before in
    let (has_context, has_service) = then-ok _ (validate_service policy i.key) named in
    (
      (
        validate_contract_sound policy i.key has_context,
        validate_service_sound policy i.key has_service,
        validate_cluster_sound policy i.key has_cluster,
      ),
      validate_keys_sound policy rest others,
    )

validate_keys_complete :
    (policy : Policy) (r : PolicyResolution)
    → All (λ (e : String × ComponentInstance). HasKey policy e.1.key) r
    → validate_keys policy r ≡ ok tt
unfolding validate_keys
validate_keys_complete policy [] h = refl
validate_keys_complete policy ((_, i) ∷ rest) h =
    let (has_context, has_component, has_cluster) = h.0 in
    rw
      (
        validate_keys,
        validate_contract_complete policy i.key has_context,
        validate_service_complete policy i.key has_component,
        validate_cluster_complete policy i.key has_cluster,
      )
      (validate_keys_complete policy rest h.1)

-- Validate returns no error exactly when no instance has an error, and for the key of each instance
-- the policy has a contract of its name with a context of its name, a service of its name with a
-- component of its name, unless that is the root's, and a cluster of its name.
pub validate_iff :
    (policy : Policy) (r : PolicyResolution)
    → (validate policy r ≡ ok tt → IsValidResolution policy r)
      × (IsValidResolution policy r → validate policy r ≡ ok tt)
unfolding validate
validate_iff policy r = (
  λ h.
      let (errors, keys) = then-ok _ (validate_keys policy r) h in
      record {
        error_free = (validate_errors_iff r).0 errors;
        keys = validate_keys_sound policy r keys;
      },
  λ h.
      rw (validate, (validate_errors_iff r).1 h.error_free, validate_keys_complete policy r h.keys)
        refl,
)
