-- ===== src/Tests/Components.antt =====
-- The sort of a service's components: runs, and the theorems at concrete services.
use aptomi.Base.{
  ℕ, String, ◌≡◌, ◌≢◌, refl, false, none, List, [], ◌∷◌, arith, ◌==◌, if◌then◌else◌, string_dec,
}
use aptomi.Base.Dict.{lookup, insert}
use aptomi.Base.Result.{ok, err}
use aptomi.Lang.Objects.{Service, ServiceComponent}
use aptomi.Lang.Components.{
  out_of_fuel, component_cycle, non_existing_component, put_components, get_components_map,
  visit_dependencies, paint, finish, dfs_component_sort, sort_from, sorted_topologically,
}
use aptomi.Lang.Components.Order.{IsSortOf, sorted_topologically-IsSortOf}
use aptomi.Lang.Components.Total.{sorted_topologically-ne-out_of_fuel}
use aptomi.Lang.Components.Acyclic.{sorted_topologically_total}
use aptomi.Util.Params.{end}

abbrev component : String → List String → ServiceComponent
component name dependencies = record {
  name = name;
  criteria = none;
  contract = "";
  code = none;
  discovery = end;
  dependencies = dependencies;
}

abbrev service : List ServiceComponent → Service
service components = record {
  metadata = record { namespace = "main"; name = "s"; generation = 0; deleted = false };
  labels = [];
  components = components;
}

abbrev web : ServiceComponent
web = component "web" ("db" ∷ "cache" ∷ [])

abbrev db : ServiceComponent
db = component "db" []

abbrev cache : ServiceComponent
cache = component "cache" ("db" ∷ [])

abbrev shop : Service
shop = service (web ∷ cache ∷ db ∷ [])

abbrev loop : Service
loop = service (component "a" ("b" ∷ []) ∷ component "b" ("a" ∷ []) ∷ [])

sort_program : Unit {0}
unfolding put_components get_components_map visit_dependencies paint finish dfs_component_sort
    sort_from sorted_topologically lookup insert string_dec
sort_program = tt

shop_sorted : sorted_topologically shop ≡ ok (db ∷ cache ∷ web ∷ [])
unfolding sort_program
shop_sorted = refl

loop_cycles : sorted_topologically loop ≡ err (component_cycle "s" "a")
unfolding sort_program
loop_cycles = refl

dangling_fails :
    sorted_topologically (service (component "a" ("z" ∷ []) ∷ []))
    ≡ err (non_existing_component "s" "z")
unfolding sort_program
dangling_fails = refl

sorted_topologically-IsSortOf_example : IsSortOf shop (db ∷ cache ∷ web ∷ [])
sorted_topologically-IsSortOf_example =
    sorted_topologically-IsSortOf shop (db ∷ cache ∷ web ∷ []) shop_sorted

sorted_topologically-ne-out_of_fuel_example : sorted_topologically loop ≢ err out_of_fuel
sorted_topologically-ne-out_of_fuel_example = sorted_topologically-ne-out_of_fuel loop

abbrev rank : String → ℕ
unfolding string_dec
rank n = if n == "db" then 0 else if n == "cache" then 1 else 2

sorted_topologically_total_example :
    (l : List ServiceComponent) × (sorted_topologically shop ≡ ok l)
unfolding string_dec
sorted_topologically_total_example =
    sorted_topologically_total rank shop
      (((refl, omega arith), ((refl, omega arith), tt)), (((refl, omega arith), tt), (tt, tt)))
