-- ===== src/Lang/Acl.antt =====
-- pkg/lang/rule_acl.go, rule_acl_actions.go, rule_acl_resolver.go and policy_view.go: which user may
-- do what. `evaluate` is the evaluation of an expression at parameters made from a user's labels.
pub mod RoleMap
pub mod Privileges
pub mod Management
pub mod Cache
use aptomi.Base.{String, Bool, true, false, ◌||◌, none, some, List, [], ◌∷◌, ltb, if◌then◌else◌}
use aptomi.Base.Dict.{Dict, lookup, insert}
use aptomi.Base.Result.{Result, ok, err, ◌>>=◌}
use aptomi.Base.Text.{split, trim_space}
use aptomi.Lang.Criteria.{matches}
use aptomi.Lang.Labels.{Labels}
use aptomi.Lang.Objects.{AclRule, User, Object, Service, dependency, kind, get_namespace, get_name}
use aptomi.Lang.Roles.{AclRole, Privilege, roles, roles_map, nobody, get_object_privileges}

abbrev pub namespace_all : String
namespace_all = "*"

-- map[string]bool, whose missing keys read as false.
abbrev pub Span : Type 0
Span = Dict Bool

abbrev pub RoleMap : Type 0
RoleMap = Dict Span

unfoldable pub is_set : String → Span → Bool
is_set ns span = elim (lookup ns span) [ none ↦ false | some b ↦ b ]

-- `roleMap[id]`, where a missing key reads as the nil map.
unfoldable pub span_of : String → RoleMap → Span
span_of id role_map = elim (lookup id role_map) [ none ↦ [] | some span ↦ span ]

-- sort.Sort by weight. The sort is not stable and the rules come from a map, so rules of one weight
-- stand in any order; every such order comes from some order of the list.
unfoldable pub insert_by_weight : AclRule → List AclRule → List AclRule
insert_by_weight r [] = r ∷ []
insert_by_weight r (s ∷ rest) =
    if ltb s.weight r.weight then s ∷ insert_by_weight r rest else r ∷ s ∷ rest

unfoldable pub sorted_by_weight : List AclRule → List AclRule
unfolding insert_by_weight
sorted_by_weight [] = []
sorted_by_weight (r ∷ rest) = insert_by_weight r (sorted_by_weight rest)

-- The loop over the namespaces of one role.
unfoldable pub mark_all : List String → Span → Span
mark_all [] span = span
mark_all (ns ∷ rest) span = mark_all rest (insert (trim_space ns) true span)

-- The body of the loop in ACLRule.ApplyActions.
unfoldable pub add_role : String → String → RoleMap → RoleMap
unfolding mark_all span_of
add_role id namespaces role_map = elim (lookup id roles_map) [
  | none ↦ role_map
  | some role ↦
      let marked = mark_all (split namespaces b',') (span_of id role_map) in
      insert id
        (if role.privileges.all_namespaces then insert namespace_all true marked else marked)
        role_map
]

unfoldable pub apply_actions : Dict String → RoleMap → RoleMap
unfolding add_role
apply_actions [] role_map = role_map
apply_actions ((id, namespaces) ∷ rest) role_map =
    apply_actions rest (add_role id namespaces role_map)

pub data AclError (E : Type 0) : Type 0 where
  unable_to_resolve_role : (user : String) → E → AclError E
  cannot_manage : (user namespace kind name : String) → AclError E
  cannot_view : (user namespace kind name : String) → AclError E
  cannot_consume : (user namespace service : String) → AclError E

-- The rules in the order in which they apply, and roleMapCache. The expression cache changes no
-- result (Lang/Expression/Cache).
pub record AclResolver : Type 0 where
  pub acl_rules : List AclRule
  pub role_map_cache : Dict RoleMap

unfoldable pub new_acl_resolver : List AclRule → AclResolver
new_acl_resolver rules = record { acl_rules = sorted_by_weight rules; role_map_cache = [] }

abbrev pub admin_role_map : RoleMap
admin_role_map = ("domain-admin", (namespace_all, true) ∷ []) ∷ []

-- The privileges of the first role that spans the object's namespace.
unfoldable pub select_role : List AclRole → RoleMap → Object → Privilege
select_role [] role_map obj = get_object_privileges nobody.privileges obj
select_role (role ∷ rest) role_map obj =
    let span = span_of role.id role_map in
    if is_set namespace_all span || is_set (get_namespace obj) span
    then get_object_privileges role.privileges obj
    else select_role rest role_map obj

-- The Dependency that CanConsume asks about.
abbrev pub consumption : Service → Object
consumption service = dependency (record {
  metadata = record {
    namespace = service.metadata.namespace;
    name = "";
    generation = 0;
    deleted = false;
  };
  user = "";
  contract = "";
  labels = [];
})

module _ {E : Type 0} (evaluate : Labels → String → Result E Bool) where
  unfoldable pub apply_rules : User → List AclRule → RoleMap → Result (AclError E) RoleMap
  apply_rules user [] role_map = ok role_map
  apply_rules user (rule ∷ rest) role_map = elim (matches (evaluate user.labels) rule.criteria) [
    | err e ↦ err (unable_to_resolve_role user.name e)
    | ok true ↦ apply_rules user rest (apply_actions rule.add_role role_map)
    | ok false ↦ apply_rules user rest role_map
  ]

  unfoldable pub compute_role_map : AclResolver → User → Result (AclError E) RoleMap
  compute_role_map r user =
      if user.domain_admin then ok admin_role_map else apply_rules user r.acl_rules []

  -- A result of a method of the resolver, with the resolver afterwards.
  abbrev pub Resolving : Type 0 → Type 0
  Resolving A = AclResolver × Result (AclError E) A

  unfoldable pub get_user_role_map : AclResolver → User → Resolving RoleMap
  get_user_role_map r user = elim (lookup user.name r.role_map_cache) [
    | some role_map ↦ (r, ok role_map)
    | none ↦ elim (compute_role_map r user) [
      | err e ↦ (r, err e)
      | ok role_map ↦
          (record r { role_map_cache = insert user.name role_map r.role_map_cache }, ok role_map)
    ]
  ]

  unfoldable pub get_user_privileges : AclResolver → User → Object → Resolving Privilege
  get_user_privileges r user obj =
      let (r', result) = get_user_role_map r user in
      (r', result >>= λ role_map. ok (select_role roles role_map obj))

  unfoldable pub view_object : AclResolver → User → Object → Resolving (Unit {0})
  view_object r user obj =
      let (r', result) = get_user_privileges r user obj in
      (
        r',
        result >>= λ p.
            if p.view
            then ok tt
            else err (cannot_view user.name (get_namespace obj) (kind obj) (get_name obj)),
      )

  unfoldable pub manage_object : AclResolver → User → Object → Resolving (Unit {0})
  manage_object r user obj =
      let (r', result) = get_user_privileges r user obj in
      (
        r',
        result >>= λ p.
            if p.manage
            then ok tt
            else err (cannot_manage user.name (get_namespace obj) (kind obj) (get_name obj)),
      )

  unfoldable pub can_consume : AclResolver → User → Service → Resolving Bool
  can_consume r user service =
      let (r', result) = get_user_privileges r user (consumption service) in
      (
        r',
        result >>= λ p.
            if p.manage
            then ok true
            else err (cannot_consume user.name service.metadata.namespace service.metadata.name),
      )
