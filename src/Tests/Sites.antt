-- ===== src/Tests/Sites.antt =====
-- A policy for one dependency, for the runs in Tests/Resolver.
use aptomi.Base.{String, true, false, Option, none, some, [], ◌∷◌, ◌==◌, if◌then◌else◌}
use aptomi.Base.Result.{Result, ok, err}
use aptomi.Util.Params.{str, end, field}
use aptomi.Lang.Criteria.{Criteria}
use aptomi.Lang.Labels.{Labels}
use aptomi.Lang.Namespaces.{new_policy_namespace}
use aptomi.Lang.Objects.{
  Metadata, Code, ServiceComponent, Service, Context, Contract, Cluster, Dependency, User, AclRule,
}
use aptomi.Lang.Policy.{Policy}
use aptomi.Engine.Nodes.{External, Resolved, Node}
use aptomi.Engine.Resolver.{init_resolution_node}

abbrev meta : String → String → Metadata
meta ns name = record { namespace = ns; name = name; generation = 1; deleted = false }

abbrev alice : User
alice = record {
  name = "alice";
  password_hash = "";
  labels = ("target", "west") ∷ [];
  domain_admin = true;
}

abbrev pub text_of : String → Result String String
text_of t = if t == "bad" then err t else ok t

abbrev pub world : External String
world = record {
  load_user_by_name = λ name. if name == "alice" then some alice else none;
  load_secrets_by_user_name = λ _. [];
  evaluate = λ _ _ e. if e == "true" then ok true else if e == "false" then ok false else err e;
  evaluate_template = λ _. text_of;
  default_namespace = λ _. none;
  hash_of_key = λ k. k;
  hash_fnv = λ _. 7;
}

abbrev pub component : Option Criteria → String → Option Code → ServiceComponent
component criteria contract code = record {
  name = "web";
  criteria = criteria;
  contract = contract;
  code = code;
  discovery = field "url" (str "http") end;
  dependencies = [];
}

abbrev pub helm : Option Code
helm = some (record { type = "helm"; params = field "image" (str "nginx") end })

abbrev pub broken : Option Criteria
broken = some (record { require_all = "broken" ∷ []; require_any = []; require_none = [] })

abbrev pub code_component : ServiceComponent
code_component = component none "" helm

abbrev pub loop_component : ServiceComponent
loop_component = component none "site" none

abbrev pub failing_component : ServiceComponent
failing_component = component broken "" helm

abbrev prod : Context
prod = record {
  name = "prod";
  criteria = none;
  change_labels = none;
  allocation = record { service = "pages"; keys = "k" ∷ [] };
}

abbrev site : Contract
site = record { metadata = meta "main" "site"; change_labels = none; contexts = prod ∷ [] }

abbrev pub pages : ServiceComponent → Service
pages c = record { metadata = meta "main" "pages"; labels = []; components = c ∷ [] }

abbrev west : Cluster
west = record { metadata = meta "main" "west"; type = "kubernetes"; labels = []; config = str "" }

abbrev admins : AclRule
admins = record {
  metadata = meta "system" "admins";
  weight = 10;
  criteria = none;
  add_role = ("domain-admin", "*") ∷ [];
}

abbrev pub policy_of : ServiceComponent → Policy
policy_of c = record {
  namespace =
      (
        "main",
        record (new_policy_namespace "main") {
          contracts = ("site", site) ∷ [];
          services = ("pages", pages c) ∷ [];
          clusters = ("west", west) ∷ [];
        },
      )
      ∷ ("system", record (new_policy_namespace "system") { acl_rules = ("admins", admins) ∷ [] })
      ∷ [];
  acl_resolver = none;
}

abbrev pub wish : Dependency
wish = record { metadata = meta "main" "wish"; user = "alice"; contract = "site"; labels = [] }

abbrev west_labels : Labels
west_labels = ("target", "west") ∷ []

-- What the dependency comes to.
abbrev pub site_of : ServiceComponent → Resolved
site_of c = record {
  node = record {
    depth = 0;
    dependency = wish;
    user = some alice;
    namespace = "main";
    contract_name = "site";
    labels = west_labels;
    arrival_key = none;
    path = [];
  };
  user = alice;
  contract = site;
  context = prod;
  service = pages c;
  allocation_keys = "k" ∷ [];
  rule_result = record {
    reject_dependency = false;
    reject_ingress = false;
    changed_labels = false;
    labels = west_labels;
  };
  service_key = record {
    cluster_namespace = "main";
    cluster_name = "west";
    target_suffix = "default";
    namespace = "main";
    contract_name = "site";
    context_name = "prod";
    keys_resolved = "k";
    context_name_with_keys = "prod#k";
    service_name = "pages";
    component_name = "root";
  };
}

abbrev pub start_of : ServiceComponent → Node
start_of c = init_resolution_node world (policy_of c) wish
