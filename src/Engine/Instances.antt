-- ===== src/Engine/Instances.antt =====
-- pkg/engine/resolve/component_instance.go: component instances and how the data of several
-- dependencies is combined in them. A time is a number, 0 the zero time. What needs the clock
-- (GetRunningTime) or a hash (GetDeployName) is left out.
pub mod Times
use aptomi.Base.{
  ℕ, String, Bool, true, false, not, ◌||◌, ◌&&◌, Option, none, some, [], ◌∷◌, nat_eq, ltb,
  if◌then◌else◌,
}
use aptomi.Base.Dict.{Dict, insert}
use aptomi.Base.Result.{Result, ok, err}
use aptomi.Util.Params.{Params, end, size, deep_equal, bool_eq}
use aptomi.Lang.Labels.{Labels, add_labels}
use aptomi.Lang.Rules.{RuleActionResult}
use aptomi.Engine.Keys.{ComponentInstanceKey, get_key}

pub data InstanceError : Type 0 where
  conflicting_code_params : (key : String) → InstanceError
  conflicting_discovery_params : (key : String) → InstanceError
  cannot_convert_code : (key : String) → InstanceError

pub record ComponentInstance : Type 0 where
  pub key : ComponentInstanceKey
  pub error : Option InstanceError
  pub dependency_keys : Dict ℕ
  pub is_code : Bool
  pub calculated_labels : Labels
  pub calculated_discovery : Params
  pub calculated_code_params : Params
  pub data_for_plugins : Dict String
  pub edges_out : Dict Bool
  pub created_at : ℕ
  pub updated_at : ℕ
  pub endpoints_up_to_date : Bool
  pub endpoints : Dict String

abbrev pub allow_ingress : String
allow_ingress = "allow_ingress"

abbrev pub new_component_instance : ComponentInstanceKey → ComponentInstance
new_component_instance cik = record {
  key = cik;
  error = none;
  dependency_keys = [];
  is_code = false;
  calculated_labels = [];
  calculated_discovery = end;
  calculated_code_params = end;
  data_for_plugins = [];
  edges_out = [];
  created_at = 0;
  updated_at = 0;
  endpoints_up_to_date = false;
  endpoints = [];
}

abbrev pub add_dependency : String → ℕ → ComponentInstance → ComponentInstance
add_dependency dep depth i = record i { dependency_keys = insert dep depth i.dependency_keys }

-- strconv.FormatBool
abbrev pub format_bool : Bool → String
format_bool true = "true"
format_bool false = "false"

abbrev pub add_rule_information : RuleActionResult → ComponentInstance → ComponentInstance
add_rule_information result i = record i {
  data_for_plugins =
      insert allow_ingress (format_bool (not result.reject_ingress)) i.data_for_plugins;
}

-- The test of addCodeParams and addDiscoveryParams: what is kept, or `none` if there is a conflict.
unfoldable pub combine_params : Params → Params → Option Params
combine_params existing new =
    if nat_eq (size existing) 0
    then some new
    else if deep_equal existing new
    then some existing
    else none

-- An error leaves the instance as it is.
unfoldable pub add_code_params : Params → ComponentInstance → Result InstanceError ComponentInstance
add_code_params params i = elim (combine_params i.calculated_code_params params) [
  | none ↦ err (conflicting_code_params (get_key i.key))
  | some p ↦ ok (record i { calculated_code_params = p })
]

unfoldable pub add_discovery_params :
    Params → ComponentInstance → Result InstanceError ComponentInstance
add_discovery_params params i = elim (combine_params i.calculated_discovery params) [
  | none ↦ err (conflicting_discovery_params (get_key i.key))
  | some p ↦ ok (record i { calculated_discovery = p })
]

abbrev pub add_instance_labels : Labels → ComponentInstance → ComponentInstance
add_instance_labels labels i = record i {
  calculated_labels = add_labels i.calculated_labels labels;
}

abbrev pub add_edge_out : String → ComponentInstance → ComponentInstance
add_edge_out dst i = record i { edges_out = insert dst true i.edges_out }

-- UpdateTimes
unfoldable pub update_times : ℕ → ℕ → ComponentInstance → ComponentInstance
update_times created_at updated_at i = record i {
  created_at =
      if nat_eq i.created_at 0 || (not (nat_eq created_at 0) && ltb created_at i.created_at)
      then created_at
      else i.created_at;
  updated_at =
      if not (nat_eq updated_at 0) && ltb i.updated_at updated_at then updated_at else i.updated_at;
}

-- A loop `for k, v := range from { to[k] = v }`.
unfoldable pub put_all {ℓ} : {V : Type ℓ} → Dict V → Dict V → Dict V
put_all [] to = to
put_all ((k, v) ∷ rest) to = put_all rest (insert k v to)

unfoldable pub put_edges : Dict Bool → Dict Bool → Dict Bool
put_edges [] to = to
put_edges ((k, _) ∷ rest) to = put_edges rest (insert k true to)

-- What appendData does after the parameters have been combined without a conflict.
abbrev pub append_rest : ComponentInstance → ComponentInstance → ComponentInstance
append_rest ops i = record i {
  edges_out = put_edges ops.edges_out i.edges_out;
  data_for_plugins = put_all ops.data_for_plugins i.data_for_plugins;
}

unfoldable pub append_code : ComponentInstance → ComponentInstance → ComponentInstance
append_code ops i = elim (add_code_params ops.calculated_code_params i) [
  | err e ↦ record i { error = some e }
  | ok i' ↦ append_rest ops i'
]

unfoldable pub append_params : ComponentInstance → ComponentInstance → ComponentInstance
append_params ops i = elim (add_discovery_params ops.calculated_discovery i) [
  | err e ↦ record i { error = some e }
  | ok i' ↦ append_code ops i'
]

-- appendData: what has been combined before an error stays.
unfoldable pub append_data : ComponentInstance → ComponentInstance → ComponentInstance
append_data ops i =
    let j = record i { dependency_keys = put_all ops.dependency_keys i.dependency_keys } in
    if bool_eq i.is_code ops.is_code
    then append_params ops (
        add_instance_labels ops.calculated_labels (record j { is_code = i.is_code || ops.is_code }))
    else record j { error = some (cannot_convert_code (get_key i.key)) }
