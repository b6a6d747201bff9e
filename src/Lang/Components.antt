-- ===== src/Lang/Components.antt =====
-- pkg/lang/service.go: a service's components by name, and in topological order. The depth of the
-- recursion is bounded by fuel; the number of components suffices (Lang/Components/Total).
pub mod Dfs
pub mod Order
pub mod Total
pub mod Acyclic
use aptomi.Base.{ℕ, zero, suc, ◌+◌, String, none, some, List, [], ◌∷◌, ◌++◌}
use aptomi.Base.Dict.{Dict, lookup, insert}
use aptomi.Base.Lists.{length}
use aptomi.Base.Result.{Result, ok, err, ◌>>=◌}
use aptomi.Lang.Objects.{Service, ServiceComponent}

unfoldable pub put_components :
    List ServiceComponent → Dict ServiceComponent → Dict ServiceComponent
put_components [] m = m
put_components (c ∷ rest) m = put_components rest (insert c.name c m)

-- GetComponentsMap: of two components of one name the later counts.
unfoldable pub get_components_map : Service → Dict ServiceComponent
unfolding put_components
get_components_map service = put_components service.components []

-- 1 and 2 in the source: being visited, and done.
pub data Color : Type 0 where
  gray black : Color

pub data SortError : Type 0 where
  non_existing_component : (service component : String) → SortError
  component_cycle : (service component : String) → SortError
  out_of_fuel : SortError

-- The arguments that the recursion changes: the colors and service.componentsOrdered.
pub record State : Type 0 where
  pub colors : Dict Color
  pub ordered : List ServiceComponent

-- The loop over the dependencies of a component; `visit` is the recursive call.
unfoldable pub visit_dependencies :
    (ServiceComponent → State → Result SortError State)
    → Service
    → List String
    → State
    → Result SortError State
visit_dependencies visit service [] st = ok st
visit_dependencies visit service (d ∷ rest) st = elim (lookup d (get_components_map service)) [
  | none ↦ err (non_existing_component service.metadata.name d)
  | some v ↦ elim (lookup v.name st.colors) [
    | none ↦ visit v st >>= visit_dependencies visit service rest
    | some gray ↦ err (component_cycle service.metadata.name d)
    | some black ↦ visit_dependencies visit service rest st
  ]
]

unfoldable pub paint : String → Color → State → State
paint name color st = record st { colors = insert name color st.colors }

unfoldable pub finish : ServiceComponent → State → State
finish u st = record { colors = insert u.name black st.colors; ordered = st.ordered ++ u ∷ [] }

unfoldable pub dfs_component_sort : ℕ → Service → ServiceComponent → State → Result SortError State
dfs_component_sort zero service u st = err out_of_fuel
dfs_component_sort (suc fuel) service u st =
    visit_dependencies (dfs_component_sort fuel service) service u.dependencies
      (paint u.name gray st)
    >>= λ st'. ok (finish u st')

-- The loop over all components.
unfoldable pub sort_from : ℕ → Service → List ServiceComponent → State → Result SortError State
sort_from fuel service [] st = ok st
sort_from fuel service (c ∷ rest) st = elim (lookup c.name st.colors) [
  | none ↦ dfs_component_sort fuel service c st >>= sort_from fuel service rest
  | some _ ↦ sort_from fuel service rest st
]

abbrev pub start : State
start = record { colors = []; ordered = [] }

-- GetComponentsSortedTopologically
unfoldable pub sorted_topologically : Service → Result SortError (List ServiceComponent)
sorted_topologically service =
    sort_from (length service.components + 1) service service.components start >>= λ st.
    ok st.ordered
