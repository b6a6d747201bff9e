-- ===== src/Tests/Keys.antt =====
-- Component keys: the theorems at concrete keys.
use aptomi.Base.{◌≡◌, refl, none, some, [], ◌∷◌, String}
use aptomi.Base.Text.{lacks}
use aptomi.Lang.Objects.{ServiceComponent}
use aptomi.Engine.Keys.{ComponentInstanceKey, new_component_instance_key, get_key}
use aptomi.Engine.Keys.Unique.{SameInstance, get_key-injective, root_component-eq-service}
use aptomi.Util.Params.{end}

abbrev key_with : String → ComponentInstanceKey
key_with service_name = record {
  cluster_namespace = "system";
  cluster_name = "c";
  target_suffix = "default";
  namespace = "main";
  contract_name = "db";
  context_name = "prod";
  keys_resolved = "a#b";
  context_name_with_keys = "prod#a#b";
  service_name = service_name;
  component_name = "web";
}

key_test : get_key (key_with "s") ≡ "system#c#default#main#db#prod#a#b#web"
unfolding get_key
key_test = refl

get_key-injective_example : SameInstance (key_with "s") (key_with "")
unfolding lacks get_key
get_key-injective_example =
    get_key-injective (key_with "s") (key_with "")
      (record {
        cluster_namespace = refl;
        cluster_name = refl;
        target_suffix = refl;
        namespace = refl;
        contract_name = refl;
        component_name = refl;
      })
      (record {
        cluster_namespace = refl;
        cluster_name = refl;
        target_suffix = refl;
        namespace = refl;
        contract_name = refl;
        component_name = refl;
      })
      refl

abbrev root_component : ServiceComponent
root_component = record {
  name = "root";
  criteria = none;
  contract = "";
  code = none;
  discovery = end;
  dependencies = [];
}

root_component-eq-service_test :
    new_component_instance_key none "" none none ("a" ∷ []) none (some root_component)
    ≡ new_component_instance_key none "" none none ("a" ∷ []) none none
root_component-eq-service_test =
    root_component-eq-service none "" none none ("a" ∷ []) none root_component refl
