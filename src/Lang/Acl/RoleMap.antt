-- ===== src/Lang/Acl/RoleMap.antt =====
-- Which roles a user has in which namespaces, after all ACL rules.
use aptomi.Base.{
  String, ◌≡◌, refl, Bool, true, false, ◌&&◌, ◌||◌, none, some, List, [], ◌∷◌, arith, ◌==◌,
  if◌then◌else◌,
}
use aptomi.Base.Dict.{Dict, lookup, insert, lookup-insert}
use aptomi.Base.Result.{Result, ok, err}
use aptomi.Base.Text.{split, trim_space}
use aptomi.Lang.Criteria.{matches}
use aptomi.Lang.Labels.{Labels}
use aptomi.Lang.Objects.{AclRule, User}
use aptomi.Lang.Roles.{AclRole, roles_map}
use aptomi.Lang.Acl.{
  Span, RoleMap, namespace_all, is_set, span_of, mark_all, add_role, apply_actions, apply_rules,
}

-- The role map gives the role in the namespace.
abbrev pub has_role : String → String → RoleMap → Bool
has_role id ns role_map = is_set ns (span_of id role_map)

-- The namespace is one of the comma-separated list.
abbrev pub listed : String → List String → Bool
listed ns [] = false
listed ns (x ∷ xs) = ns == trim_space x || listed ns xs

-- An entry of add-role gives a known role in the namespaces that it lists, and a role that covers
-- all namespaces in "*" too.
abbrev pub covers : AclRole → String → String → Bool
covers role namespaces ns =
    listed ns (split namespaces b',') || (role.privileges.all_namespaces && ns == namespace_all)

abbrev pub entry_grants : String → String → String → Bool
entry_grants id namespaces ns = elim (lookup id roles_map) [
  | none ↦ false
  | some role ↦ covers role namespaces ns
]

abbrev pub grants : Dict String → String → String → Bool
grants [] id ns = false
grants ((j, namespaces) ∷ rest) id ns =
    (id == j && entry_grants j namespaces ns) || grants rest id ns

is_set-insert :
    (j k : String) (span : Span) → is_set j (insert k true span) ≡ (j == k || is_set j span)
unfolding is_set
is_set-insert j k span = ground (arith, lookup-insert j k true span)

is_set-mark_all :
    (names : List String) (span : Span) (ns : String)
    → is_set ns (mark_all names span) ≡ (listed ns names || is_set ns span)
unfolding mark_all
is_set-mark_all [] span ns = refl
is_set-mark_all (x ∷ xs) span ns = ground (
  arith,
  is_set-mark_all xs (insert (trim_space x) true span) ns,
  is_set-insert ns (trim_space x) span,
)

span_of-insert :
    (j k : String) (span : Span) (m : RoleMap)
    → span_of j (insert k span m) ≡ (if j == k then span else span_of j m)
unfolding span_of
span_of-insert j k span m = ground (arith, lookup-insert j k span m)

has_role-add_role :
    (k namespaces : String) (m : RoleMap) (id ns : String)
    → has_role id ns (add_role k namespaces m)
      ≡ ((id == k && entry_grants k namespaces ns) || has_role id ns m)
unfolding add_role
has_role-add_role k namespaces m id ns =
    let names = split namespaces b',' in
    let marked = mark_all names (span_of k m) in
    ground (
      arith,
      span_of-insert id k marked m,
      span_of-insert id k (insert namespace_all true marked) m,
      is_set-insert ns namespace_all marked,
      is_set-mark_all names (span_of k m) ns,
    )

has_role-apply_actions :
    (actions : Dict String) (m : RoleMap) (id ns : String)
    → has_role id ns (apply_actions actions m) ≡ (grants actions id ns || has_role id ns m)
unfolding apply_actions
has_role-apply_actions [] m id ns = refl
has_role-apply_actions ((k, namespaces) ∷ rest) m id ns = ground (
  arith,
  has_role-apply_actions rest (add_role k namespaces m) id ns,
  has_role-add_role k namespaces m id ns,
)

module _ {E : Type 0} (evaluate : Labels → String → Result E Bool) (user : User) where
  abbrev pub rule_matches : AclRule → Bool
  rule_matches rule = elim (matches (evaluate user.labels) rule.criteria) [
    | ok b ↦ b
    | err _ ↦ false
  ]

  -- Some rule matches the user and grants the role in the namespace.
  abbrev pub granted : List AclRule → String → String → Bool
  granted [] id ns = false
  granted (rule ∷ rest) id ns =
      (rule_matches rule && grants rule.add_role id ns) || granted rest id ns

  -- If no criteria fail to evaluate, then a user has a role in a namespace afterwards exactly when
  -- the user had it before or some rule that matches grants it: the order of the rules does not
  -- matter, and no rule takes a role away.
  pub has_role-apply_rules :
      (rules : List AclRule) (m m' : RoleMap) (id ns : String)
      → apply_rules evaluate user rules m ≡ ok m'
      → has_role id ns m' ≡ (granted rules id ns || has_role id ns m)
  unfolding apply_rules
  has_role-apply_rules [] m m' id ns h = ground arith
  has_role-apply_rules (rule ∷ rest) m m' id ns h = ground (
    arith,
    has_role-apply_rules rest (apply_actions rule.add_role m) m' id ns,
    has_role-apply_rules rest m m' id ns,
    has_role-apply_actions rule.add_role m id ns,
  )
