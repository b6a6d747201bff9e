-- ===== src/Lang/Acl/Management.antt =====
-- Who may manage an object, from the ACL rules alone.
use aptomi.Base.{String, ◌≡◌, refl, Bool, true, false, ◌||◌, inl, inr, List, [], ◌∷◌, arith}
use aptomi.Base.Dict.{lookup, lookup-nil}
use aptomi.Base.Result.{Result, ok, Result-cases}
use aptomi.Lang.Labels.{Labels}
use aptomi.Lang.Objects.{AclRule, User, Object, get_namespace}
use aptomi.Lang.Roles.{roles}
use aptomi.Lang.Acl.{
  AclResolver, RoleMap, namespace_all, view_object, is_set, span_of, insert_by_weight,
  sorted_by_weight, new_acl_resolver, select_role, apply_rules, compute_role_map, get_user_role_map,
  get_user_privileges, manage_object,
}
use aptomi.Lang.Acl.RoleMap.{has_role, granted, has_role-apply_rules}
use aptomi.Lang.Acl.Privileges.{may_manage_in, select_role-ImpliesView, select_role-needs_role}

has_role-nil : (id ns : String) → has_role id ns [] ≡ false
unfolding is_set span_of lookup
has_role-nil id ns = refl

module _ {E : Type 0} (evaluate : Labels → String → Result E Bool) (user : User) where
  granted-insert_by_weight :
      (r : AclRule) (rules : List AclRule) (id ns : String)
      → granted evaluate user (insert_by_weight r rules) id ns
        ≡ granted evaluate user (r ∷ rules) id ns
  unfolding insert_by_weight
  granted-insert_by_weight r [] id ns = refl
  granted-insert_by_weight r (s ∷ rest) id ns =
      ground (arith, granted-insert_by_weight r rest id ns)

  granted-sorted_by_weight :
      (rules : List AclRule) (id ns : String)
      → granted evaluate user (sorted_by_weight rules) id ns ≡ granted evaluate user rules id ns
  unfolding sorted_by_weight
  granted-sorted_by_weight [] id ns = refl
  granted-sorted_by_weight (r ∷ rest) id ns = ground (
    arith,
    granted-insert_by_weight r (sorted_by_weight rest) id ns,
    granted-sorted_by_weight rest id ns,
  )

  has_role-sorted :
      (rules : List AclRule) (m : RoleMap) (id ns : String)
      → apply_rules evaluate user (sorted_by_weight rules) [] ≡ ok m
      → has_role id ns m ≡ granted evaluate user rules id ns
  has_role-sorted rules m id ns h = ground (
    arith,
    has_role-apply_rules evaluate user (sorted_by_weight rules) [] m id ns,
    granted-sorted_by_weight rules id ns,
    has_role-nil id ns,
  )

  -- Some rule that matches the user gives one of the three managing roles, there or everywhere.
  abbrev pub may_manage_by : List AclRule → String → Bool
  may_manage_by rules ns =
      (granted evaluate user rules "domain-admin" namespace_all
        || granted evaluate user rules "domain-admin" ns)
      || ((granted evaluate user rules "namespace-admin" namespace_all
            || granted evaluate user rules "namespace-admin" ns)
          || (granted evaluate user rules "service-consumer" namespace_all
              || granted evaluate user rules "service-consumer" ns))

  may_manage_in-sorted :
      (rules : List AclRule) (m : RoleMap) (ns : String)
      → apply_rules evaluate user (sorted_by_weight rules) [] ≡ ok m
      → may_manage_in m ns ≡ may_manage_by rules ns
  may_manage_in-sorted rules m ns h = cc (
    has_role-sorted rules m "domain-admin" namespace_all h,
    has_role-sorted rules m "domain-admin" ns h,
    has_role-sorted rules m "namespace-admin" namespace_all h,
    has_role-sorted rules m "namespace-admin" ns h,
    has_role-sorted rules m "service-consumer" namespace_all h,
    has_role-sorted rules m "service-consumer" ns h,
  )

  manage_object-role_map :
      (rules : List AclRule) (obj : Object)
      → user.domain_admin ≡ false
      → (manage_object evaluate (new_acl_resolver rules) user obj).1 ≡ ok tt
      → (m : RoleMap) × (apply_rules evaluate user (sorted_by_weight rules) [] ≡ ok m)
        × ((select_role roles m obj).manage ≡ true)
  unfolding manage_object get_user_privileges get_user_role_map compute_role_map new_acl_resolver
  manage_object-role_map rules obj plain h =
      elim (Result-cases (apply_rules evaluate user (sorted_by_weight rules) [])) [
        | inl (m, e) ↦ (m, e, ground (arith, lookup-nil {V = RoleMap} user.name))
        | inr (x, e) ↦ ground (arith, lookup-nil {V = RoleMap} user.name)
      ]

  -- A user that is no domain admin may manage an object, as a fresh resolver says, only if some ACL
  -- rule whose criteria match the user gives a managing role in the object's namespace or in "*".
  pub manage_object-needs_grant :
      (rules : List AclRule) (obj : Object)
      → user.domain_admin ≡ false
      → (manage_object evaluate (new_acl_resolver rules) user obj).1 ≡ ok tt
      → may_manage_by rules (get_namespace obj) ≡ true
  manage_object-needs_grant rules obj plain h =
      let (m, e, manages) = manage_object-role_map rules obj plain h in
      cc (may_manage_in-sorted rules m (get_namespace obj) e, select_role-needs_role m obj manages)

  -- For every state of the resolver: what a user may manage the user may view.
  pub view_object-of_manage :
      (r : AclResolver) (obj : Object)
      → (manage_object evaluate r user obj).1 ≡ ok tt
      → (view_object evaluate r user obj).1 ≡ ok tt
  unfolding manage_object view_object get_user_privileges
  view_object-of_manage r obj h = elim (Result-cases (get_user_role_map evaluate r user).1) [
    | inl (m, e) ↦ ground (arith, select_role-ImpliesView m obj)
    | inr (x, e) ↦ ground arith
  ]
