-- ===== src/Tests/Lang.antt =====
-- pkg/lang: runs, and the theorems at concrete inputs.
use aptomi.Base.{
  String, ◌≡◌, refl, ◌↔◌, Bool, true, false, ◌||◌, none, some, List, [], ◌∷◌, ◌==◌, if◌then◌else◌,
  string_dec,
}
use aptomi.Base.Dict.{lookup, insert, has, erase}
use aptomi.Base.Lists.{All}
use aptomi.Base.Result.{Result, ok, err}
use aptomi.Base.Text.{split, trim_space}
use aptomi.Lang.Labels.{Labels, LabelOperations, operation, apply_transform}
use aptomi.Lang.Labels.Transform.{after_set, lookup-apply_transform, apply_transform-eq_of_false}
use aptomi.Lang.Expression.{Govaluate, bool}
use aptomi.Lang.Expression.Cache.{evaluate_all, direct_all, cache_transparent}
use aptomi.Lang.Criteria.{Criteria, allows, matches}
use aptomi.Lang.Criteria.Allows.{Holds, Fails, HoldsSome, allows_iff}
use aptomi.Lang.Objects.{Metadata, AclRule, User, Object, service, get_namespace}
use aptomi.Lang.Acl.{
  RoleMap, new_acl_resolver, sorted_by_weight, insert_by_weight, span_of, is_set, mark_all,
  add_role, apply_actions, apply_rules, compute_role_map, get_user_role_map, get_user_privileges,
  select_role, manage_object, view_object,
}
use aptomi.Lang.Acl.RoleMap.{has_role, granted, has_role-apply_rules}
use aptomi.Lang.Acl.Management.{may_manage_by, manage_object-needs_grant, view_object-of_manage}
use aptomi.Lang.Acl.Cache.{after, get_user_role_map-after}
use aptomi.Lang.Roles.{get_object_privileges}

abbrev labels : Labels
labels = ("env", "dev") ∷ ("team", "x") ∷ []

abbrev ops : LabelOperations
ops = some (("set", ("env", "prod") ∷ ("empty", "") ∷ []) ∷ ("remove", ("team", "") ∷ []) ∷ [])

apply_transform_test : apply_transform labels ops ≡ (("env", "prod") ∷ [], true)
unfolding apply_transform lookup insert has erase string_dec
apply_transform_test = refl

lookup-apply_transform_example : lookup "env" (apply_transform labels ops).0 ≡ (
    if has "env" (operation "remove" ops)
    then none
    else after_set (lookup "env" (operation "set" ops)) (lookup "env" labels))
unfolding operation lookup has string_dec
lookup-apply_transform_example = lookup-apply_transform labels ops "env" (refl, (refl, tt))

apply_transform-eq_of_false_test : (apply_transform labels none).0 ≡ labels
unfolding apply_transform
apply_transform-eq_of_false_test = apply_transform-eq_of_false labels none refl

-- Expressions that are the name of a label, which holds if its value is "true".
abbrev label_holds : Labels → String → Result String Bool
label_holds l x = elim (lookup x l) [ none ↦ err x | some v ↦ ok (v == "true") ]

abbrev criteria : Criteria
criteria = record { require_all = "a" ∷ []; require_any = "b" ∷ "c" ∷ []; require_none = [] }

abbrev facts : Labels
facts = ("a", "true") ∷ ("b", "false") ∷ ("c", "true") ∷ []

allows_iff_test : (allows (label_holds facts) criteria ≡ ok true) ↔ (
    All (Holds (label_holds facts)) criteria.require_all
    × All (Fails (label_holds facts)) criteria.require_none
    × HoldsSome (label_holds facts) criteria.require_any)
allows_iff_test = allows_iff (label_holds facts) criteria

abbrev constant_true : Govaluate
constant_true = record {
  Compiled = String;
  Parameters = Labels;
  compile = λ s. ok s;
  evaluate = λ s l. bool (has s l);
}

abbrev queries : List (String × Labels)
queries = ("a", facts) ∷ ("z", facts) ∷ ("a", []) ∷ []

cache_transparent_example : evaluate_all constant_true [] queries ≡ direct_all constant_true queries
cache_transparent_example = cache_transparent constant_true queries

abbrev meta : String → String → Metadata
meta ns name = record { namespace = ns; name = name; generation = 0; deleted = false }

abbrev consumers : AclRule
consumers = record {
  metadata = meta "system" "consumers";
  weight = 2;
  criteria = some (record { require_all = "is_admin" ∷ []; require_any = []; require_none = [] });
  add_role = ("namespace-admin", "main1, main2") ∷ ("bogus", "x") ∷ [];
}

abbrev everybody : AclRule
everybody = record {
  metadata = meta "system" "everybody";
  weight = 1;
  criteria = none;
  add_role = ("service-consumer", "main") ∷ [];
}

abbrev alice : User
alice = record {
  name = "alice";
  password_hash = "";
  labels = ("is_admin", "true") ∷ [];
  domain_admin = false;
}

abbrev web : Object
web = service (record { metadata = meta "main2" "web"; labels = []; components = [] })

abbrev acl_rules : List AclRule
acl_rules = consumers ∷ everybody ∷ []

abbrev alice_roles : RoleMap
alice_roles =
    ("service-consumer", ("main", true) ∷ [])
    ∷ ("namespace-admin", ("main1", true) ∷ ("main2", true) ∷ [])
    ∷ []

acl_program : Unit {0}
unfolding apply_rules apply_actions add_role mark_all span_of is_set lookup insert has string_dec
    split trim_space matches sorted_by_weight insert_by_weight new_acl_resolver compute_role_map
    get_user_role_map get_user_privileges select_role get_object_privileges manage_object
acl_program = tt

alice_roles_test : apply_rules label_holds alice (sorted_by_weight acl_rules) [] ≡ ok alice_roles
unfolding acl_program
alice_roles_test = refl

has_role-apply_rules_example : has_role "namespace-admin" "main2" alice_roles ≡ (
    granted label_holds alice (sorted_by_weight acl_rules) "namespace-admin" "main2"
    || has_role "namespace-admin" "main2" [])
has_role-apply_rules_example =
    has_role-apply_rules label_holds alice (sorted_by_weight acl_rules) [] alice_roles
      "namespace-admin" "main2" alice_roles_test

alice_manages_web : (manage_object label_holds (new_acl_resolver acl_rules) alice web).1 ≡ ok tt
unfolding acl_program
alice_manages_web = refl

manage_object-needs_grant_example :
    may_manage_by label_holds alice acl_rules (get_namespace web) ≡ true
manage_object-needs_grant_example =
    manage_object-needs_grant label_holds alice acl_rules web refl alice_manages_web

view_object-of_manage_test :
    (view_object label_holds (new_acl_resolver acl_rules) alice web).1 ≡ ok tt
view_object-of_manage_test =
    view_object-of_manage label_holds alice (new_acl_resolver acl_rules) web alice_manages_web

get_user_role_map-after_example :
    (get_user_role_map label_holds
      (after label_holds (λ _. alice) (new_acl_resolver acl_rules) (alice ∷ alice ∷ []))
      alice).1
    ≡ (get_user_role_map label_holds (new_acl_resolver acl_rules) alice).1
get_user_role_map-after_example =
    get_user_role_map-after label_holds (λ _. alice) acl_rules (alice ∷ alice ∷ []) alice
      (refl, (refl, tt)) refl
