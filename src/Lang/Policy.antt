-- ===== src/Lang/Policy.antt =====
-- pkg/lang/policy.go: the policy, a map of namespaces and the cached ACL resolver.
pub mod Contents
pub mod Resolver
use aptomi.Base.{String, Bool, true, false, Option, none, some, List, [], ◌∷◌, ◌++◌}
use aptomi.Base.Dict.{Dict, lookup, insert}
use aptomi.Base.Result.{Result, ok, err, ◌>>=◌}
use aptomi.Base.Text.{split}
use aptomi.Util.Params.{Value}
use aptomi.Lang.Acl.{AclResolver, new_acl_resolver}
use aptomi.Lang.Objects.{Object, AclRule, acl_rule, get_namespace, system_ns}
use aptomi.Lang.Namespaces.{
  PolicyNamespace, new_policy_namespace, PolicyError, bad_locator, no_namespace,
}
use aptomi.Lang.Namespaces

pub record Policy : Type 0 where
  pub namespace : Dict PolicyNamespace
  pub acl_resolver : Option AclResolver

abbrev pub new_policy : Policy
new_policy = record { namespace = []; acl_resolver = none }

abbrev rules_of : Dict AclRule → List AclRule
rules_of [] = []
rules_of ((_, r) ∷ d) = r ∷ rules_of d

-- The ACL rules that count: those of the system namespace.
unfoldable pub system_rules : Policy → List AclRule
system_rules policy = elim (lookup system_ns policy.namespace) [
  | none ↦ []
  | some p ↦ rules_of p.acl_rules
]

-- getCachedACLResolver, with the policy afterwards.
unfoldable pub get_cached_acl_resolver : Policy → Policy × AclResolver
get_cached_acl_resolver policy = elim policy.acl_resolver [
  | some r ↦ (policy, r)
  | none ↦
      let r = new_acl_resolver (system_rules policy) in (record policy { acl_resolver = some r }, r)
]

-- The namespace of the object, which AddObject makes if it is missing.
unfoldable pub namespace_for : String → Policy → PolicyNamespace
namespace_for ns policy = elim (lookup ns policy.namespace) [
  | some p ↦ p
  | none ↦ new_policy_namespace ns
]

unfoldable pub invalidated_by : Object → Option AclResolver → Option AclResolver
invalidated_by (acl_rule _) r = none
invalidated_by _ r = r

-- RemoveObject, with whether the object was there.
unfoldable pub remove_object : Object → Policy → Policy × Bool
remove_object o policy = elim (lookup (get_namespace o) policy.namespace) [
  | none ↦ (policy, false)
  | some p ↦
      let removed = Namespaces.remove_object o p in
      (record policy { namespace = insert (get_namespace o) removed.0 policy.namespace }, removed.1)
]

module _ {E : Type 0} (marshal : Value → Result E String) where
  -- The new namespace stays also if the object is refused.
  unfoldable pub add_object : Object → Policy → Policy × Option (PolicyError E)
  add_object o policy =
      let p = namespace_for (get_namespace o) policy in
      elim (Namespaces.add_object marshal o p) [
        | ok p' ↦ (
          record {
            namespace = insert (get_namespace o) p' policy.namespace;
            acl_resolver = invalidated_by o policy.acl_resolver;
          },
          none,
        )
        | err e ↦ (
          record {
            namespace = insert (get_namespace o) p policy.namespace;
            acl_resolver = invalidated_by o policy.acl_resolver;
          },
          some e,
        )
      ]

module _ {E : Type 0} where
  unfoldable pub get_in_namespace :
      String → String → String → String → Policy → Result (PolicyError E) (Option Object)
  get_in_namespace kind locator ns name policy = elim (lookup ns policy.namespace) [
    | none ↦ err (no_namespace ns kind locator)
    | some p ↦ Namespaces.get_object kind name p
  ]

  -- The parts of a locator, and what GetObject does with them.
  unfoldable pub get_by_parts :
      String → String → List String → String → Policy → Result (PolicyError E) (Option Object)
  get_by_parts kind locator (name ∷ []) ns policy = get_in_namespace kind locator ns name policy
  get_by_parts kind locator (ns ∷ name ∷ []) current policy =
      get_in_namespace kind locator ns name policy
  get_by_parts kind locator _ current policy = err (bad_locator kind locator)

  unfoldable pub get_object :
      String → String → String → Policy → Result (PolicyError E) (Option Object)
  unfolding get_by_parts
  get_object kind locator current_ns policy =
      get_by_parts kind locator (split locator b'/') current_ns policy

  unfoldable pub objects_in : String → Dict PolicyNamespace → Result (PolicyError E) (List Object)
  objects_in kind [] = ok []
  objects_in kind ((_, p) ∷ rest) = Namespaces.get_objects_by_kind kind p >>= λ here.
      objects_in kind rest >>= λ others. ok (here ++ others)

  unfoldable pub get_objects_by_kind : String → Policy → Result (PolicyError E) (List Object)
  unfolding objects_in
  get_objects_by_kind kind policy = objects_in kind policy.namespace
