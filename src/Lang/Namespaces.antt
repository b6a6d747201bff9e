-- ===== src/Lang/Namespaces.antt =====
-- pkg/lang/policy_namespace.go: the objects of one namespace, by kind and name. `marshal` is
-- yaml.Marshal of a cluster's config.
pub mod Storage
use aptomi.Base.{
  String, Bool, true, false, not, ◌||◌, Option, none, some, List, [], ◌∷◌, ◌==◌, if◌then◌else◌,
}
use aptomi.Base.Dict.{Dict, lookup, insert, erase, has}
use aptomi.Base.Result.{Result, ok, err, ◌>>=◌}
use aptomi.Util.Params.{Value}
use aptomi.Lang.Objects.{
  Service, Contract, Cluster, Rule, AclRule, Dependency, Object, service, contract, cluster, rule,
  acl_rule, dependency,
}

pub record PolicyNamespace : Type 0 where
  pub name : String
  pub services : Dict Service
  pub contracts : Dict Contract
  pub clusters : Dict Cluster
  pub rules : Dict Rule
  pub acl_rules : Dict AclRule
  pub dependencies : Dict Dependency

abbrev pub new_policy_namespace : String → PolicyNamespace
new_policy_namespace name = record {
  name = name;
  services = [];
  contracts = [];
  clusters = [];
  rules = [];
  acl_rules = [];
  dependencies = [];
}

pub data PolicyError (E : Type 0) : Type 0 where
  marshal_failed : E → PolicyError E
  cluster_modified : (name : String) → PolicyError E
  unknown_kind : (kind : String) → PolicyError E
  bad_locator : (kind locator : String) → PolicyError E
  no_namespace : (namespace kind locator : String) → PolicyError E
  cluster_not_found : (name : String) → PolicyError E

-- The kinds that the switch statements know.
pub data Kind : Type 0 where
  service_kind contract_kind cluster_kind rule_kind acl_rule_kind dependency_kind : Kind

-- The switch on the kind's name; `none` is the default branch.
unfoldable pub find_kind : String → Option Kind
find_kind k =
    if k == "service"
    then some service_kind
    else if k == "contract"
    then some contract_kind
    else if k == "cluster"
    then some cluster_kind
    else if k == "rule"
    then some rule_kind
    else if k == "aclrule"
    then some acl_rule_kind
    else if k == "dependency"
    then some dependency_kind
    else none

abbrev pub wrap : {A : Type 0} → (A → Object) → Option A → Option Object
wrap f none = none
wrap f (some a) = some (f a)

abbrev pub objects_of : {A : Type 0} → (A → Object) → Dict A → List Object
objects_of f [] = []
objects_of f ((_, a) ∷ d) = f a ∷ objects_of f d

-- The branches of getObject.
unfoldable pub stored : Kind → String → PolicyNamespace → Option Object
stored service_kind n p = wrap service (lookup n p.services)
stored contract_kind n p = wrap contract (lookup n p.contracts)
stored cluster_kind n p = wrap cluster (lookup n p.clusters)
stored rule_kind n p = wrap rule (lookup n p.rules)
stored acl_rule_kind n p = wrap acl_rule (lookup n p.acl_rules)
stored dependency_kind n p = wrap dependency (lookup n p.dependencies)

-- The branches of getObjectsByKind.
unfoldable pub all_of : Kind → PolicyNamespace → List Object
all_of service_kind p = objects_of service p.services
all_of contract_kind p = objects_of contract p.contracts
all_of cluster_kind p = objects_of cluster p.clusters
all_of rule_kind p = objects_of rule p.rules
all_of acl_rule_kind p = objects_of acl_rule p.acl_rules
all_of dependency_kind p = objects_of dependency p.dependencies

unfoldable pub put : Object → PolicyNamespace → PolicyNamespace
put (service o) p = record p { services = insert o.metadata.name o p.services }
put (contract o) p = record p { contracts = insert o.metadata.name o p.contracts }
put (cluster o) p = record p { clusters = insert o.metadata.name o p.clusters }
put (rule o) p = record p { rules = insert o.metadata.name o p.rules }
put (acl_rule o) p = record p { acl_rules = insert o.metadata.name o p.acl_rules }
put (dependency o) p = record p { dependencies = insert o.metadata.name o p.dependencies }

-- removeObject, with whether the object was there.
unfoldable pub remove_object : Object → PolicyNamespace → PolicyNamespace × Bool
remove_object (service o) p =
    if has o.metadata.name p.services
    then (record p { services = erase o.metadata.name p.services }, true)
    else (p, false)
remove_object (contract o) p =
    if has o.metadata.name p.contracts
    then (record p { contracts = erase o.metadata.name p.contracts }, true)
    else (p, false)
remove_object (cluster o) p =
    if has o.metadata.name p.clusters
    then (record p { clusters = erase o.metadata.name p.clusters }, true)
    else (p, false)
remove_object (rule o) p =
    if has o.metadata.name p.rules
    then (record p { rules = erase o.metadata.name p.rules }, true)
    else (p, false)
remove_object (acl_rule o) p =
    if has o.metadata.name p.acl_rules
    then (record p { acl_rules = erase o.metadata.name p.acl_rules }, true)
    else (p, false)
remove_object (dependency o) p =
    if has o.metadata.name p.dependencies
    then (record p { dependencies = erase o.metadata.name p.dependencies }, true)
    else (p, false)

module _ {E : Type 0} where
  unfoldable pub get_object :
      String → String → PolicyNamespace → Result (PolicyError E) (Option Object)
  get_object kind name p = elim (find_kind kind) [
    | none ↦ err (unknown_kind kind)
    | some k ↦ ok (stored k name p)
  ]

  -- The default branch of getObjectsByKind panics.
  unfoldable pub get_objects_by_kind :
      String → PolicyNamespace → Result (PolicyError E) (List Object)
  get_objects_by_kind kind p = elim (find_kind kind) [
    | none ↦ err (unknown_kind kind)
    | some k ↦ ok (all_of k p)
  ]

module _ {E : Type 0} (marshal : Value → Result E String) where
  abbrev marshal_config : Cluster → Result (PolicyError E) String
  marshal_config c = elim (marshal c.config) [ err e ↦ err (marshal_failed e) | ok s ↦ ok s ]

  -- Whether an update keeps the type and the config of a cluster.
  unfoldable pub check_cluster : Cluster → Option Cluster → Result (PolicyError E) (Unit {0})
  check_cluster updated none = ok tt
  check_cluster updated (some existing) = marshal_config existing >>= λ before.
      marshal_config updated >>= λ after.
      if not (updated.type == existing.type) || not (after == before)
      then err (cluster_modified updated.metadata.name)
      else ok tt

  unfoldable pub add_object : Object → PolicyNamespace → Result (PolicyError E) PolicyNamespace
  unfolding put
  add_object (service o) p = ok (put (service o) p)
  add_object (contract o) p = ok (put (contract o) p)
  add_object (cluster o) p =
      check_cluster o (lookup o.metadata.name p.clusters) >>= λ _. ok (put (cluster o) p)
  add_object (rule o) p = ok (put (rule o) p)
  add_object (acl_rule o) p = ok (put (acl_rule o) p)
  add_object (dependency o) p = ok (put (dependency o) p)
