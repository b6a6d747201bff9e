-- ===== src/Lang/Namespaces/Storage.antt =====
-- pkg/lang/policy_namespace.go: what addObject and removeObject change.
use aptomi.Base.{
  String, string_dec, Bool, true, false, ◌≡◌, refl, inl, inr, ◌&&◌, none, some, ◌==◌, arith,
  if◌then◌else◌,
}
use aptomi.Base.Dict.{lookup, lookup-insert, lookup-erase, has-none}
use aptomi.Base.Result.{Result, ok, Result-cases}
use aptomi.Util.Params.{Value}
use aptomi.Lang.Objects.{
  Object, service, contract, cluster, rule, acl_rule, dependency, kind, get_name,
}
use aptomi.Lang.Namespaces.{
  PolicyNamespace, Kind, service_kind, contract_kind, cluster_kind, rule_kind, acl_rule_kind,
  dependency_kind, stored, put, find_kind, add_object, remove_object, check_cluster,
}

abbrev pub kind_of : Object → Kind
kind_of (service _) = service_kind
kind_of (contract _) = contract_kind
kind_of (cluster _) = cluster_kind
kind_of (rule _) = rule_kind
kind_of (acl_rule _) = acl_rule_kind
kind_of (dependency _) = dependency_kind

abbrev pub same_kind : Kind → Kind → Bool
same_kind service_kind k = elim k [ service_kind ↦ true | _ ↦ false ]
same_kind contract_kind k = elim k [ contract_kind ↦ true | _ ↦ false ]
same_kind cluster_kind k = elim k [ cluster_kind ↦ true | _ ↦ false ]
same_kind rule_kind k = elim k [ rule_kind ↦ true | _ ↦ false ]
same_kind acl_rule_kind k = elim k [ acl_rule_kind ↦ true | _ ↦ false ]
same_kind dependency_kind k = elim k [ dependency_kind ↦ true | _ ↦ false ]

-- Whether the object is the one that the kind and the name stand for.
abbrev pub is_at : Kind → String → Object → Bool
is_at k n o = same_kind k (kind_of o) && n == get_name o

pub is_at-same : (o : Object) → is_at (kind_of o) (get_name o) o ≡ true
is_at-same (service _) = ground arith
is_at-same (contract _) = ground arith
is_at-same (cluster _) = ground arith
is_at-same (rule _) = ground arith
is_at-same (acl_rule _) = ground arith
is_at-same (dependency _) = ground arith

pub find_kind-kind : (o : Object) → find_kind (kind o) ≡ some (kind_of o)
unfolding find_kind string_dec
find_kind-kind (service _) = refl
find_kind-kind (contract _) = refl
find_kind-kind (cluster _) = refl
find_kind-kind (rule _) = refl
find_kind-kind (acl_rule _) = refl
find_kind-kind (dependency _) = refl

pub stored-put :
    (k : Kind) (n : String) (o : Object) (p : PolicyNamespace)
    → stored k n (put o p) ≡ (if is_at k n o then some o else stored k n p)
unfolding stored put
stored-put k n (service o) p = ground (arith, lookup-insert n o.metadata.name o p.services)
stored-put k n (contract o) p = ground (arith, lookup-insert n o.metadata.name o p.contracts)
stored-put k n (cluster o) p = ground (arith, lookup-insert n o.metadata.name o p.clusters)
stored-put k n (rule o) p = ground (arith, lookup-insert n o.metadata.name o p.rules)
stored-put k n (acl_rule o) p = ground (arith, lookup-insert n o.metadata.name o p.acl_rules)
stored-put k n (dependency o) p = ground (arith, lookup-insert n o.metadata.name o p.dependencies)

-- What the namespace holds after removeObject, and what removeObject returns.
pub stored-remove_object :
    (k : Kind) (n : String) (o : Object) (p : PolicyNamespace)
    → stored k n (remove_object o p).0 ≡ (if is_at k n o then none else stored k n p)
unfolding stored remove_object
stored-remove_object k n (service o) p =
    ground (arith, lookup-erase n o.metadata.name p.services, has-none o.metadata.name p.services)
stored-remove_object k n (contract o) p =
    ground (arith, lookup-erase n o.metadata.name p.contracts, has-none o.metadata.name p.contracts)
stored-remove_object k n (cluster o) p =
    ground (arith, lookup-erase n o.metadata.name p.clusters, has-none o.metadata.name p.clusters)
stored-remove_object k n (rule o) p =
    ground (arith, lookup-erase n o.metadata.name p.rules, has-none o.metadata.name p.rules)
stored-remove_object k n (acl_rule o) p =
    ground (arith, lookup-erase n o.metadata.name p.acl_rules, has-none o.metadata.name p.acl_rules)
stored-remove_object k n (dependency o) p =
    ground (
      arith,
      lookup-erase n o.metadata.name p.dependencies,
      has-none o.metadata.name p.dependencies,
    )

module _ {E : Type 0} (marshal : Value → Result E String) where
  -- addObject puts the object in, or it fails and the object is a cluster.
  pub add_object-put :
      (o : Object) (p p' : PolicyNamespace) → add_object marshal o p ≡ ok p' → p' ≡ put o p
  unfolding add_object
  add_object-put (service o) p p' h = ground arith
  add_object-put (contract o) p p' h = ground arith
  add_object-put (cluster o) p p' h =
      elim (Result-cases (check_cluster marshal o (lookup o.metadata.name p.clusters))) [
        | inl (_, c) ↦ ground (arith, h, c)
        | inr (_, c) ↦ ground (arith, h, c)
      ]
  add_object-put (rule o) p p' h = ground arith
  add_object-put (acl_rule o) p p' h = ground arith
  add_object-put (dependency o) p p' h = ground arith
