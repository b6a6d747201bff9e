-- ===== src/Lang/Validation.antt =====
-- pkg/lang/validation.go: the checks of fields and objects that the program registers with the
-- validator, a package that calls them by the tags of fields and by types. What a check reports is
-- an error of the list; the texts of the errors and their translation are left out.
pub mod Identifiers
pub mod Services
use Prim.Native.Char.{code}
use aptomi.Base.{
  ℕ, zero, suc, ◌+◌, String, Bool, true, false, not, ◌&&◌, ◌||◌, Option, none, some, List, [], ◌∷◌,
  ◌++◌, ◌==◌, nat_eq, leb, if◌then◌else◌,
}
use aptomi.Base.Dict.{Dict, lookup, insert, has}
use aptomi.Base.Lists.{contains}
use aptomi.Base.Result.{Result, ok, err}
use aptomi.Base.Text.{split, trim_space}
use aptomi.Lang.Components.{SortError, sorted_topologically}
use aptomi.Lang.Labels.{Labels, LabelOperations}
use aptomi.Lang.Objects.{
  Code, Service, ServiceComponent, Context, Contract, Cluster, Rule, AclRule, Dependency, system_ns,
}
use aptomi.Lang.Policy.{Policy, get_object}
use aptomi.Lang.Acl.{namespace_all}
use aptomi.Lang.Roles.{roles_map}

is_letter : ℕ → Bool
is_letter c = (leb 65 c && leb c 90) || (leb 97 c && leb c 122)

-- A letter, a digit, "_" or "-".
unfoldable pub is_name_char : ℕ → Bool
unfolding is_letter
is_name_char c = is_letter c || ((leb 48 c && leb c 57) || (nat_eq c 95 || nat_eq c 45))

unfoldable pub all_name_chars : String → Bool
all_name_chars String.[] = true
all_name_chars (String.◌∷◌ c s) = is_name_char (code c) && all_name_chars s

unfoldable pub count_chars : String → ℕ
count_chars String.[] = 0
count_chars (String.◌∷◌ c s) = suc (count_chars s)

-- isIdentifier: ^[a-zA-Z][a-zA-Z0-9_-]{0,63}$
unfoldable pub is_identifier : String → Bool
unfolding is_letter
is_identifier String.[] = false
is_identifier (String.◌∷◌ c s) = is_letter (code c) && (all_name_chars s && leb (count_chars s) 63)

abbrev cluster_types : List String
cluster_types = "kubernetes" ∷ []

abbrev code_types : List String
code_types = "helm" ∷ "raw" ∷ []

abbrev label_ops_keys : List String
label_ops_keys = "set" ∷ "remove" ∷ []

abbrev allow_reject : List String
allow_reject = "allow" ∷ "reject" ∷ []

unfoldable pub validate_allow_reject_action : String → Bool
validate_allow_reject_action = contains allow_reject

unfoldable pub validate_cluster_type : String → Bool
validate_cluster_type = contains cluster_types

unfoldable pub validate_code_type : String → Bool
validate_code_type = contains code_types

-- validateLabels
unfoldable pub validate_labels : Labels → Bool
validate_labels [] = true
validate_labels ((name, _) ∷ rest) = is_identifier name && validate_labels rest

unfoldable pub validate_operations : Dict Labels → Bool
validate_operations [] = true
validate_operations ((op, labels) ∷ rest) =
    contains label_ops_keys op && (validate_labels labels && validate_operations rest)

-- validateLabelOperations
unfoldable pub validate_label_operations : LabelOperations → Bool
validate_label_operations none = true
validate_label_operations (some ops) = validate_operations ops

unfoldable pub validate_role_namespaces : List String → Bool
validate_role_namespaces [] = true
validate_role_namespaces (ns ∷ rest) =
    (ns == namespace_all || is_identifier (trim_space ns)) && validate_role_namespaces rest

-- validateACLRoleActionMap
unfoldable pub validate_acl_role_action_map : Dict String → Bool
validate_acl_role_action_map [] = true
validate_acl_role_action_map ((role, namespaces) ∷ rest) =
    has role roles_map
    && (validate_role_namespaces (split namespaces b',') && validate_acl_role_action_map rest)

pub data ValidationError : Type 0 where
  code_contract_single : (component : String) → ValidationError
  missing_contract : (contract : String) → ValidationError
  not_unique : (component : String) → ValidationError
  not_sorted : SortError → ValidationError
  missing_component : (dependency : String) → ValidationError
  missing_service : (service : String) → ValidationError
  no_rule_actions : ValidationError
  no_acl_rule_actions : ValidationError
  not_in_system_ns : (namespace : String) → ValidationError

-- `obj == nil || err != nil` is an error.
unfoldable pub exists_object : String → String → String → Policy → Bool
exists_object kind locator ns policy = elim (get_object {E = String} kind locator ns policy) [
  | ok (some _) ↦ true
  | ok none ↦ false
  | err _ ↦ false
]

-- Whether the component has either code or a contract.
abbrev pub code_or_contract : Option Code → String → Bool
code_or_contract none contract = not (contract == "")
code_or_contract (some _) contract = contract == ""

-- The first loop of validateService.
unfoldable pub check_contracts : Policy → String → List ServiceComponent → Option ValidationError
check_contracts policy ns [] = none
check_contracts policy ns (c ∷ rest) =
    let later = check_contracts policy ns rest in
    if not (code_or_contract c.code c.contract)
    then some (code_contract_single c.name)
    else if c.contract == "" || exists_object "contract" c.contract ns policy
    then later
    else some (missing_contract c.contract)

-- The second loop, which gathers the names.
unfoldable pub check_unique : Dict Bool → List ServiceComponent → Result ValidationError (Dict Bool)
check_unique names [] = ok names
check_unique names (c ∷ rest) =
    let later = check_unique (insert c.name true names) rest in
    if has c.name names then err (not_unique c.name) else later

unfoldable pub check_sort : Service → List ValidationError
check_sort service = elim (sorted_topologically service) [ ok _ ↦ [] | err e ↦ not_sorted e ∷ [] ]

unfoldable pub check_names : Dict Bool → List String → Option ValidationError
check_names names [] = none
check_names names (d ∷ rest) =
    let later = check_names names rest in if has d names then later else some (missing_component d)

-- The last loop, which returns at the first error.
unfoldable pub check_dependencies : Dict Bool → List ServiceComponent → List ValidationError
check_dependencies names [] = []
check_dependencies names (c ∷ rest) = elim (check_names names c.dependencies) [
  | some e ↦ e ∷ []
  | none ↦ check_dependencies names rest
]

-- validateService
unfoldable pub validate_service : Policy → Service → List ValidationError
validate_service policy service =
    elim (check_contracts policy service.metadata.namespace service.components) [
      | some e ↦ e ∷ []
      | none ↦ elim (check_unique [] service.components) [
        | err e ↦ e ∷ []
        | ok names ↦ check_sort service ++ check_dependencies names service.components
      ]
    ]

-- validateDependency
unfoldable pub validate_dependency : Policy → Dependency → List ValidationError
validate_dependency policy d =
    if exists_object "contract" d.contract d.metadata.namespace policy
    then []
    else missing_contract d.contract ∷ []

unfoldable pub check_contexts : Policy → String → List Context → List ValidationError
check_contexts policy ns [] = []
check_contexts policy ns (c ∷ rest) =
    let later = check_contexts policy ns rest in
    if exists_object "service" c.allocation.service ns policy
    then later
    else missing_service c.allocation.service ∷ []

-- validateContract
unfoldable pub validate_contract_object : Policy → Contract → List ValidationError
validate_contract_object policy c = check_contexts policy c.metadata.namespace c.contexts

abbrev changes_labels : LabelOperations → Bool
changes_labels none = false
changes_labels (some []) = false
changes_labels (some (_ ∷ _)) = true

-- validateRule
unfoldable pub validate_rule : Rule → List ValidationError
validate_rule r =
    if changes_labels r.actions.change_labels
      || (not (r.actions.dependency == "") || not (r.actions.ingress == ""))
    then []
    else no_rule_actions ∷ []

-- validateACLRule
unfoldable pub validate_acl_rule : AclRule → List ValidationError
validate_acl_rule r = elim r.add_role [ [] ↦ no_acl_rule_actions ∷ [] | _ ↦ [] ]

-- validateCluster
unfoldable pub validate_cluster_object : Cluster → List ValidationError
validate_cluster_object c =
    if c.metadata.namespace == system_ns then [] else not_in_system_ns c.metadata.namespace ∷ []
