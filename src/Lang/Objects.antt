-- ===== src/Lang/Objects.antt =====
-- The objects of the policy language: pkg/lang/metadata.go, service.go, contract.go, cluster.go,
-- rule.go, rule_acl.go, dependency.go and user.go. A Go pointer that may be nil is an Option.
use aptomi.Base.{ℕ, String, Bool, Option, List}
use aptomi.Base.Dict.{Dict}
use aptomi.Util.Params.{Params, Value}
use aptomi.Lang.Criteria.{Criteria}
use aptomi.Lang.Labels.{Labels, LabelOperations}

pub record Metadata : Type 0 where
  pub namespace : String
  pub name : String
  pub generation : ℕ
  pub deleted : Bool

pub record Code : Type 0 where
  pub type : String
  pub params : Params

-- The empty contract name means that the component is not a contract.
pub record ServiceComponent : Type 0 where
  pub name : String
  pub criteria : Option Criteria
  pub contract : String
  pub code : Option Code
  pub discovery : Params
  pub dependencies : List String

pub record Service : Type 0 where
  pub metadata : Metadata
  pub labels : Labels
  pub components : List ServiceComponent

pub record Allocation : Type 0 where
  pub service : String
  pub keys : List String

pub record Context : Type 0 where
  pub name : String
  pub criteria : Option Criteria
  pub change_labels : LabelOperations
  pub allocation : Allocation

pub record Contract : Type 0 where
  pub metadata : Metadata
  pub change_labels : LabelOperations
  pub contexts : List Context

pub record Cluster : Type 0 where
  pub metadata : Metadata
  pub type : String
  pub labels : Labels
  pub config : Value

pub record RuleActions : Type 0 where
  pub change_labels : LabelOperations
  pub dependency : String
  pub ingress : String

pub record Rule : Type 0 where
  pub metadata : Metadata
  pub weight : ℕ
  pub criteria : Option Criteria
  pub actions : RuleActions

pub record AclRule : Type 0 where
  pub metadata : Metadata
  pub weight : ℕ
  pub criteria : Option Criteria
  pub add_role : Dict String

pub record Dependency : Type 0 where
  pub metadata : Metadata
  pub user : String
  pub contract : String
  pub labels : Labels

pub record User : Type 0 where
  pub name : String
  pub password_hash : String
  pub labels : Labels
  pub domain_admin : Bool

-- lang.Base: an object of any of the six kinds of PolicyObjects.
pub data Object : Type 0 where
  service : Service → Object
  contract : Contract → Object
  cluster : Cluster → Object
  rule : Rule → Object
  acl_rule : AclRule → Object
  dependency : Dependency → Object

abbrev pub metadata : Object → Metadata
metadata (service o) = o.metadata
metadata (contract o) = o.metadata
metadata (cluster o) = o.metadata
metadata (rule o) = o.metadata
metadata (acl_rule o) = o.metadata
metadata (dependency o) = o.metadata

abbrev pub kind : Object → String
kind (service _) = "service"
kind (contract _) = "contract"
kind (cluster _) = "cluster"
kind (rule _) = "rule"
kind (acl_rule _) = "aclrule"
kind (dependency _) = "dependency"

abbrev pub get_namespace : Object → String
get_namespace o = (metadata o).namespace

abbrev pub get_name : Object → String
get_name o = (metadata o).name

-- runtime.SystemNS
abbrev pub system_ns : String
system_ns = "system"
