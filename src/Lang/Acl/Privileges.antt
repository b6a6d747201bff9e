-- ===== src/Lang/Acl/Privileges.antt =====
-- What the privileges that the resolver computes allow.
use aptomi.Base.{String, ◌≡◌, Bool, true, false, ◌||◌, arith}
use aptomi.Base.Dict.{lookup}
use aptomi.Lang.Objects.{Object, get_namespace}
use aptomi.Lang.Roles.{
  Privilege, roles, domain_admin, namespace_admin, service_consumer, nobody, get_object_privileges,
}
use aptomi.Lang.Acl.{RoleMap, namespace_all, select_role}
use aptomi.Lang.Acl.RoleMap.{has_role}

abbrev pub ImpliesView : Privilege → Type 0
ImpliesView p = p.manage ≡ true → p.view ≡ true

admin-ImpliesView : (obj : Object) → ImpliesView (get_object_privileges domain_admin.privileges obj)
unfolding get_object_privileges lookup
admin-ImpliesView obj = ground arith

namespace_admin-ImpliesView :
    (obj : Object) → ImpliesView (get_object_privileges namespace_admin.privileges obj)
unfolding get_object_privileges lookup
namespace_admin-ImpliesView obj = ground arith

consumer-ImpliesView :
    (obj : Object) → ImpliesView (get_object_privileges service_consumer.privileges obj)
unfolding get_object_privileges lookup
consumer-ImpliesView obj = ground arith

nobody-cannot_manage : (obj : Object) → (get_object_privileges nobody.privileges obj).manage ≡ false
unfolding get_object_privileges lookup
nobody-cannot_manage obj = ground arith

-- Whatever roles a user has, what the user may manage the user may view.
pub select_role-ImpliesView :
    (role_map : RoleMap) (obj : Object) → ImpliesView (select_role roles role_map obj)
unfolding select_role
select_role-ImpliesView role_map obj = ground (
  arith,
  admin-ImpliesView obj,
  namespace_admin-ImpliesView obj,
  consumer-ImpliesView obj,
  nobody-cannot_manage obj,
)

-- The user has one of the three roles that may manage something, there or everywhere.
abbrev pub may_manage_in : RoleMap → String → Bool
may_manage_in m ns =
    (has_role "domain-admin" namespace_all m || has_role "domain-admin" ns m)
    || ((has_role "namespace-admin" namespace_all m || has_role "namespace-admin" ns m)
        || (has_role "service-consumer" namespace_all m || has_role "service-consumer" ns m))

-- Nothing can be managed without such a role.
pub select_role-needs_role :
    (role_map : RoleMap) (obj : Object)
    → (select_role roles role_map obj).manage ≡ true
    → may_manage_in role_map (get_namespace obj) ≡ true
unfolding select_role
select_role-needs_role role_map obj h = ground (arith, nobody-cannot_manage obj)
