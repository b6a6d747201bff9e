-- ===== src/Lang/Roles.antt =====
-- pkg/lang/rule_acl.go: the ACL roles and the privileges that each gives.
use aptomi.Base.{String, Bool, true, false, none, some, List, [], ◌∷◌, ◌==◌, if◌then◌else◌}
use aptomi.Base.Dict.{Dict, lookup}
use aptomi.Lang.Objects.{Object, kind, get_namespace, system_ns}

pub record Privilege : Type 0 where
  pub view : Bool
  pub manage : Bool

abbrev pub full_access : Privilege
full_access = record { view = true; manage = true }

abbrev pub view_access : Privilege
view_access = record { view = true; manage = false }

abbrev pub no_access : Privilege
no_access = record { view = false; manage = false }

pub record Privileges : Type 0 where
  pub all_namespaces : Bool
  pub namespace_objects : Dict Privilege
  pub global_objects : Dict Privilege

pub record AclRole : Type 0 where
  pub id : String
  pub name : String
  pub privileges : Privileges

unfoldable pub get_object_privileges : Privileges → Object → Privilege
get_object_privileges p obj =
    let found =
      if get_namespace obj == system_ns
      then lookup (kind obj) p.global_objects
      else lookup (kind obj) p.namespace_objects in
    elim found [ none ↦ no_access | some privilege ↦ privilege ]

abbrev namespace_table : Privilege → Privilege → Dict Privilege
namespace_table most dependencies =
    ("service", most) ∷ ("contract", most) ∷ ("dependency", dependencies) ∷ ("rule", most) ∷ []

abbrev global_table : Privilege → Dict Privilege
global_table all = ("cluster", all) ∷ ("rule", all) ∷ ("aclrule", all) ∷ []

abbrev pub domain_admin : AclRole
domain_admin = record {
  id = "domain-admin";
  name = "Domain Admin";
  privileges = record {
    all_namespaces = true;
    namespace_objects = namespace_table full_access full_access;
    global_objects = global_table full_access;
  };
}

abbrev pub namespace_admin : AclRole
namespace_admin = record {
  id = "namespace-admin";
  name = "Namespace Admin";
  privileges = record {
    all_namespaces = false;
    namespace_objects = namespace_table full_access full_access;
    global_objects = global_table view_access;
  };
}

abbrev pub service_consumer : AclRole
service_consumer = record {
  id = "service-consumer";
  name = "Service Consumer";
  privileges = record {
    all_namespaces = false;
    namespace_objects = namespace_table view_access full_access;
    global_objects = global_table view_access;
  };
}

abbrev pub nobody : AclRole
nobody = record {
  id = "nobody";
  name = "Nobody";
  privileges = record {
    all_namespaces = false;
    namespace_objects = namespace_table view_access view_access;
    global_objects = global_table view_access;
  };
}

-- ACLRolesOrderedList
abbrev pub roles : List AclRole
roles = domain_admin ∷ namespace_admin ∷ service_consumer ∷ nobody ∷ []

-- ACLRolesMap
abbrev pub roles_map : Dict AclRole
roles_map =
    ("domain-admin", domain_admin)
    ∷ ("namespace-admin", namespace_admin)
    ∷ ("service-consumer", service_consumer)
    ∷ ("nobody", nobody)
    ∷ []
