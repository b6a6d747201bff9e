-- ===== src/Engine/Diff.antt =====
-- pkg/engine/diff/policy_resolution_diff.go, with GetActionGraphNode, AddAction and AddBefore of
-- pkg/engine/apply/action: the plan of actions that turns one resolution into another.
pub mod Steps
pub mod Edges
pub mod Built
pub mod Convergence
pub mod Leftover
use aptomi.Base.{
  ℕ, String, Bool, true, false, not, ◌&&◌, ◌||◌, Option, none, some, List, [], ◌∷◌, ◌++◌, ◌==◌,
  if◌then◌else◌,
}
use aptomi.Base.Dict.{Dict, lookup, insert, has}
use aptomi.Util.Params.{Params, end, deep_equal}
use aptomi.Engine.Plan.{GraphNode, Plan, new_graph_node, node}
use aptomi.Engine.Keys.{get_key, get_parent_service_key}
use aptomi.Engine.Instances.{ComponentInstance}
use aptomi.Engine.Resolution.{PolicyResolution}
use aptomi.Engine.Actions.{Action, action_name, create, update, delete, attach, detach}

-- GetActionGraphNode adds the node if it is missing.
unfoldable pub get_action_graph_node : String → Plan Action → Plan Action
get_action_graph_node key plan = elim (lookup key plan) [
  | none ↦ insert key (new_graph_node key) plan
  | some _ ↦ plan
]

unfoldable pub has_name : String → List Action → Bool
has_name name [] = false
has_name name (a ∷ rest) = action_name a == name || has_name name rest

-- AddAction with avoidDuplicates.
unfoldable pub add_action : Action → List Action → List Action
add_action a actions = if has_name (action_name a) actions then actions else actions ++ a ∷ []

unfoldable pub add_to_node : String → Action → Plan Action → Plan Action
add_to_node key a plan =
    let n = node plan key in insert key (record n { actions = add_action a n.actions }) plan

-- `node.AddBefore(that)`; the nodes are shared, so that the two may be the same.
unfoldable pub add_before : String → String → Plan Action → Plan Action
add_before key that plan =
    let n = node plan key in
    let plan' = insert key (record n { before = n.before ++ that ∷ [] }) plan in
    let m = node plan' that in
    insert that (record m { before_rev = m.before_rev ++ key ∷ [] }) plan'

abbrev pub dependencies_of : Option ComponentInstance → Dict ℕ
dependencies_of none = []
dependencies_of (some i) = i.dependency_keys

abbrev pub params_of : Option ComponentInstance → Params
params_of none = end
params_of (some i) = i.calculated_code_params

abbrev pub is_code : Option ComponentInstance → Bool
is_code none = false
is_code (some i) = i.is_code

abbrev pub is_nil : Dict ℕ → Bool
is_nil [] = true
is_nil (_ ∷ _) = false

unfoldable pub detaches : String → Dict ℕ → Dict ℕ → List Action
detaches key [] next = []
detaches key ((d, _) ∷ prev) next =
    let rest = detaches key prev next in if has d next then rest else detach key d ∷ rest

unfoldable pub attaches : String → Dict ℕ → Dict ℕ → List Action
attaches key [] prev = []
attaches key ((d, depth) ∷ next) prev =
    let rest = attaches key next prev in if has d prev then rest else attach key d depth ∷ rest

unfoldable pub creates : String → Option ComponentInstance → Option ComponentInstance → List Action
creates key prev next =
    if is_nil (dependencies_of prev) && not (is_nil (dependencies_of next))
    then create key (params_of next) ∷ []
    else []

-- Whether the component is updated, and its parent service with it.
unfoldable pub needs_update : Option ComponentInstance → Option ComponentInstance → Bool
needs_update prev next =
    (is_code prev || is_code next)
    && (not (is_nil (dependencies_of prev))
        && (not (is_nil (dependencies_of next))
            && not (deep_equal (params_of prev) (params_of next))))

unfoldable pub is_destructed : Option ComponentInstance → Option ComponentInstance → Bool
is_destructed prev next = not (is_nil (dependencies_of prev)) && is_nil (dependencies_of next)

-- The actions that buildActions adds to the node of the key itself, in their order.
unfoldable pub own_actions :
    String → Option ComponentInstance → Option ComponentInstance → List Action
unfolding is_destructed needs_update
own_actions key prev next =
    detaches key (dependencies_of prev) (dependencies_of next)
    ++ (if is_destructed prev next
        then delete key (params_of prev) ∷ []
        else creates key prev next
          ++ ((if needs_update prev next
                then update key (params_of prev) (params_of next) ∷ []
                else [])
              ++ attaches key (dependencies_of next) (dependencies_of prev)))

unfoldable pub add_all : String → List Action → Plan Action → Plan Action
add_all key [] plan = plan
add_all key (a ∷ rest) plan = add_all key rest (add_to_node key a plan)

unfoldable pub update_parent :
    Option ComponentInstance → Option ComponentInstance → Plan Action → Plan Action
update_parent prev none plan = plan
update_parent prev (some i) plan =
    let parent = get_key (get_parent_service_key i.key) in
    if needs_update prev (some i) then add_to_node parent (update parent end end) plan else plan

-- buildActions. The update of the parent goes to the node of another key.
unfoldable pub build_actions :
    PolicyResolution → PolicyResolution → String → Plan Action → Plan Action
build_actions prev next key plan = update_parent (lookup key prev) (lookup key next) (
    add_all key (own_actions key (lookup key prev) (lookup key next))
      (get_action_graph_node key plan))

unfoldable pub build_all :
    PolicyResolution → PolicyResolution → List String → Plan Action → Plan Action
build_all prev next [] plan = plan
build_all prev next (key ∷ keys) plan = build_all prev next keys (build_actions prev next key plan)

abbrev pub edges_of : Option ComponentInstance → Dict Bool
edges_of none = []
edges_of (some i) = i.edges_out

unfoldable pub add_edges_of : String → Dict Bool → Plan Action → Plan Action
add_edges_of key [] plan = plan
add_edges_of key ((out, _) ∷ edges) plan =
    add_edges_of key edges
      (add_before key out (get_action_graph_node out (get_action_graph_node key plan)))

unfoldable pub add_edges : PolicyResolution → List String → Plan Action → Plan Action
add_edges next [] plan = plan
add_edges next (key ∷ keys) plan =
    add_edges next keys (add_edges_of key (edges_of (lookup key next)) plan)

-- compareAndProduceActions. The two lists are the orders in which the two loops go through
-- allCompInstances.
unfoldable pub compare_and_produce_actions :
    PolicyResolution → PolicyResolution → List String → List String → Plan Action
unfolding build_all add_edges
compare_and_produce_actions prev next order order' =
    add_edges next order' (build_all prev next order [])
