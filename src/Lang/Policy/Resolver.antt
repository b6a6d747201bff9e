-- ===== src/Lang/Policy/Resolver.antt =====
-- pkg/lang/policy.go: the cached ACL resolver and the rules that the policy has.
use aptomi.Base.{
  String, ◌≡◌, refl, sym, ap, ◌∙◌, ◌⊎◌, inl, inr, Option, Option-cases, none, some, List, [], ◌∷◌,
  arith,
}
use aptomi.Base.Dict.{lookup, insert, lookup-insert}
use aptomi.Base.Result.{Result, Result-cases}
use aptomi.Util.Params.{Value}
use aptomi.Lang.Acl.{AclResolver, new_acl_resolver}
use aptomi.Lang.Objects.{
  Object, service, contract, cluster, rule, acl_rule, dependency, get_namespace, system_ns,
}
use aptomi.Lang.Namespaces.{PolicyNamespace, put}
use aptomi.Lang.Namespaces
use aptomi.Lang.Namespaces.Storage.{add_object-put}
use aptomi.Lang.Policy.{
  Policy, new_policy, add_object, remove_object, get_cached_acl_resolver, invalidated_by,
  namespace_for, system_rules,
}

-- The cache is empty or holds a resolver with the rules of the policy.
abbrev pub IsFresh : Policy → Type 0
IsFresh policy =
    (policy.acl_resolver ≡ none)
    ⊎ (policy.acl_resolver ≡ some (new_acl_resolver (system_rules policy)))

pub get_cached-IsFresh :
    (policy : Policy) → IsFresh policy → IsFresh (get_cached_acl_resolver policy).0
unfolding get_cached_acl_resolver system_rules
get_cached-IsFresh policy (inl empty) = inr (rw (empty, get_cached_acl_resolver) refl)
get_cached-IsFresh policy (inr cached) = inr (rw (cached, get_cached_acl_resolver) cached)

get_cached_lem :
    (policy : Policy)
    → IsFresh policy
    → (get_cached_acl_resolver policy).1 ≡ new_acl_resolver (system_rules policy)
unfolding get_cached_acl_resolver system_rules
get_cached_lem policy (inl empty) = rw (empty, get_cached_acl_resolver) refl
get_cached_lem policy (inr cached) = rw (cached, get_cached_acl_resolver) refl

-- A namespace changes nothing in the rules if it holds the ACL rules that it held.
system_rules-insert :
    (ns : String) (p : PolicyNamespace) (policy : Policy) (r : Option AclResolver)
    → p.acl_rules ≡ (namespace_for ns policy).acl_rules
    → system_rules (record { namespace = insert ns p policy.namespace; acl_resolver = r })
      ≡ system_rules policy
unfolding system_rules namespace_for
system_rules-insert ns p policy r same =
    ground (arith, lookup-insert system_ns ns p policy.namespace, same)

-- Any object but an ACL rule leaves the ACL rules as they are.
put-acl_rules :
    (o : Object) (p : PolicyNamespace) (r : AclResolver)
    → invalidated_by o (some r) ≡ some r
    → (put o p).acl_rules ≡ p.acl_rules
unfolding put invalidated_by
put-acl_rules (service _) p r h = refl
put-acl_rules (contract _) p r h = refl
put-acl_rules (cluster _) p r h = refl
put-acl_rules (rule _) p r h = refl
put-acl_rules (acl_rule _) p r h = ground (arith, h)
put-acl_rules (dependency _) p r h = refl

invalidated-cases :
    (o : Object)
    → ((r : Option AclResolver) → invalidated_by o r ≡ none)
      ⊎ ((r : Option AclResolver) → invalidated_by o r ≡ r)
unfolding invalidated_by
invalidated-cases (service _) = inr (λ r. refl)
invalidated-cases (contract _) = inr (λ r. refl)
invalidated-cases (cluster _) = inr (λ r. refl)
invalidated-cases (rule _) = inr (λ r. refl)
invalidated-cases (acl_rule _) = inl (λ r. refl)
invalidated-cases (dependency _) = inr (λ r. refl)

module _ {E : Type 0} (marshal : Value → Result E String) where
  add_object-resolver :
      (o : Object) (policy : Policy)
      → (add_object marshal o policy).0.acl_resolver ≡ invalidated_by o policy.acl_resolver
  unfolding add_object
  add_object-resolver o policy =
      let q = namespace_for (get_namespace o) policy in
      elim (Result-cases (Namespaces.add_object marshal o q)) [
        | inl (_, e) ↦ rw (e, add_object) refl
        | inr (_, e) ↦ rw (e, add_object) refl
      ]

  add_object-system_rules :
      (o : Object) (policy : Policy)
      → ((r : Option AclResolver) → invalidated_by o r ≡ r)
      → system_rules (add_object marshal o policy).0 ≡ system_rules policy
  unfolding add_object
  add_object-system_rules o policy keeps =
      let q = namespace_for (get_namespace o) policy in
      elim (Result-cases (Namespaces.add_object marshal o q)) [
        | inl (p', e) ↦
            rw (e, add_object)
              (system_rules-insert (get_namespace o) p' policy
                (invalidated_by o policy.acl_resolver)
                (ap (λ (x : PolicyNamespace). x.acl_rules) (add_object-put marshal o q p' e)
                  ∙ put-acl_rules o q (new_acl_resolver []) (keeps (some (new_acl_resolver [])))))
        | inr (_, e) ↦
            rw (e, add_object)
              (system_rules-insert (get_namespace o) q policy (invalidated_by o policy.acl_resolver)
                refl)
      ]

  add_object-IsFresh :
      (o : Object) (policy : Policy) → IsFresh policy → IsFresh (add_object marshal o policy).0
  add_object-IsFresh o policy fresh = elim (invalidated-cases o) [
    | inl clears ↦ inl (add_object-resolver o policy ∙ clears policy.acl_resolver)
    | inr keeps ↦ elim fresh [
      | inl empty ↦ inl (add_object-resolver o policy ∙ keeps policy.acl_resolver ∙ empty)
      | inr cached ↦ inr (
          add_object-resolver o policy
          ∙ keeps policy.acl_resolver
          ∙ cached
          ∙ ap (λ x. some (new_acl_resolver x)) (sym (add_object-system_rules o policy keeps)))
    ]
  ]

  -- What a program may do to a policy, but for RemoveObject.
  pub data Use : Type 0 where
    adding : Object → Use
    viewing : Use

  unfoldable pub after : List Use → Policy → Policy
  after [] policy = policy
  after (adding o ∷ rest) policy = after rest (add_object marshal o policy).0
  after (viewing ∷ rest) policy = after rest (get_cached_acl_resolver policy).0

  after-IsFresh : (uses : List Use) (policy : Policy) → IsFresh policy → IsFresh (after uses policy)
  unfolding after
  after-IsFresh [] policy fresh = fresh
  after-IsFresh (adding o ∷ rest) policy fresh =
      after-IsFresh rest (add_object marshal o policy).0 (add_object-IsFresh o policy fresh)
  after-IsFresh (viewing ∷ rest) policy fresh =
      after-IsFresh rest (get_cached_acl_resolver policy).0 (get_cached-IsFresh policy fresh)

  -- After any sequence of AddObject and View on a new policy, the resolver that View uses is a new
  -- one for the ACL rules that the system namespace holds then.
  pub get_cached-after :
      (uses : List Use)
      → (get_cached_acl_resolver (after uses new_policy)).1
        ≡ new_acl_resolver (system_rules (after uses new_policy))
  get_cached-after uses =
      get_cached_lem (after uses new_policy) (after-IsFresh uses new_policy (inl refl))

cached_after :
    (policy : Policy)
    → (get_cached_acl_resolver policy).0.acl_resolver ≡ some (get_cached_acl_resolver policy).1
unfolding get_cached_acl_resolver
cached_after policy = elim (Option-cases policy.acl_resolver) [
  | inl empty ↦ rw (empty, get_cached_acl_resolver) refl
  | inr (r, cached) ↦ rw (cached, get_cached_acl_resolver) cached
]

get_cached-some :
    (policy : Policy) (r : AclResolver)
    → policy.acl_resolver ≡ some r
    → (get_cached_acl_resolver policy).1 ≡ r
unfolding get_cached_acl_resolver
get_cached-some policy r cached = rw (cached, get_cached_acl_resolver) refl

remove_object-resolver :
    (o : Object) (policy : Policy) → (remove_object o policy).0.acl_resolver ≡ policy.acl_resolver
unfolding remove_object
remove_object-resolver o policy = elim (Option-cases (lookup (get_namespace o) policy.namespace)) [
  | inl missing ↦ rw (missing, remove_object) refl
  | inr (p, at) ↦ rw (at, remove_object) refl
]

-- After a View, RemoveObject leaves View with the resolver that it had, whatever object is removed.
pub get_cached-remove_object :
    (o : Object) (policy : Policy)
    → (get_cached_acl_resolver (remove_object o (get_cached_acl_resolver policy).0).0).1
      ≡ (get_cached_acl_resolver policy).1
get_cached-remove_object o policy =
    let viewed = (get_cached_acl_resolver policy).0 in
    get_cached-some (remove_object o viewed).0 (get_cached_acl_resolver policy).1
      (remove_object-resolver o viewed ∙ cached_after policy)
