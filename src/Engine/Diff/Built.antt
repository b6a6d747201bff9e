-- ===== src/Engine/Diff/Built.antt =====
-- pkg/engine/diff/policy_resolution_diff.go: the plan that the diff builds is well-formed.
use aptomi.Base.{
  String, ◌≡◌, refl, true, Bool, Option, none, some, inl, inr, List, [], ◌∷◌, arith, Bool-cases,
  Option-cases,
}
use aptomi.Base.Dict.{Dict, lookup, keys}
use aptomi.Base.Lists.{contains}
use aptomi.Engine.Actions.{Action}
use aptomi.Engine.Instances.{ComponentInstance}
use aptomi.Engine.Resolution.{PolicyResolution}
use aptomi.Engine.Plan.{Plan, node, new_graph_node}
use aptomi.Engine.Plan.Invariant.{IsGraph}
use aptomi.Engine.Plan.Building.{
  contains-keys, lookup-keys, IsBuilt, IsBuilt-IsGraph, nil-IsBuilt, insert-IsBuilt,
}
use aptomi.Engine.Diff.Edges.{add_before-IsBuilt}
use aptomi.Engine.Diff.{
  get_action_graph_node, add_to_node, add_all, update_parent, needs_update, build_actions,
  build_all, add_edges_of, add_edges, compare_and_produce_actions,
}

pub get_action_graph_node-IsBuilt :
    (key : String) (plan : Plan Action) → IsBuilt plan → IsBuilt (get_action_graph_node key plan)
unfolding get_action_graph_node
get_action_graph_node-IsBuilt key plan built = elim (Option-cases (lookup key plan)) [
  | inl missing ↦
      rw (get_action_graph_node, missing)
        (insert-IsBuilt plan key (new_graph_node key) (rw (node, missing) refl)
          (rw (node, missing) refl) built)
  | inr (n, found) ↦ rw (get_action_graph_node, found) built
]

pub get_action_graph_node-has :
    (key : String) (plan : Plan Action)
    → contains (keys (get_action_graph_node key plan)) key ≡ true
unfolding get_action_graph_node
get_action_graph_node-has key plan = elim (Option-cases (lookup key plan)) [
  | inl missing ↦
      rw (get_action_graph_node, missing)
        (ground (arith, contains-keys key key (new_graph_node {A = Action} key) plan))
  | inr (n, found) ↦ rw (get_action_graph_node, found) (lookup-keys key n plan found)
]

pub get_action_graph_node-keeps :
    (key x : String) (plan : Plan Action)
    → contains (keys plan) x ≡ true
    → contains (keys (get_action_graph_node key plan)) x ≡ true
unfolding get_action_graph_node
get_action_graph_node-keeps key x plan there = elim (Option-cases (lookup key plan)) [
  | inl missing ↦
      rw (get_action_graph_node, missing)
        (ground (arith, contains-keys x key (new_graph_node {A = Action} key) plan, there))
  | inr (n, found) ↦ rw (get_action_graph_node, found) there
]

add_to_node-IsBuilt :
    (key : String) (a : Action) (plan : Plan Action)
    → IsBuilt plan
    → IsBuilt (add_to_node key a plan)
unfolding add_to_node
add_to_node-IsBuilt key a plan = insert-IsBuilt plan key _ refl refl

add_all-IsBuilt :
    (key : String) (actions : List Action) (plan : Plan Action)
    → IsBuilt plan
    → IsBuilt (add_all key actions plan)
unfolding add_all
add_all-IsBuilt key [] plan built = built
add_all-IsBuilt key (a ∷ rest) plan built =
    add_all-IsBuilt key rest (add_to_node key a plan) (add_to_node-IsBuilt key a plan built)

update_parent-IsBuilt :
    (prev next : Option ComponentInstance) (plan : Plan Action)
    → IsBuilt plan
    → IsBuilt (update_parent prev next plan)
unfolding update_parent
update_parent-IsBuilt prev none plan built = built
update_parent-IsBuilt prev (some i) plan built = elim (Bool-cases (needs_update prev (some i))) [
  | inl yes_update ↦ rw yes_update (add_to_node-IsBuilt _ _ plan built)
  | inr no_update ↦ rw no_update built
]

build_all-IsBuilt :
    (prev next : PolicyResolution) (order : List String) (plan : Plan Action)
    → IsBuilt plan
    → IsBuilt (build_all prev next order plan)
unfolding build_all build_actions
build_all-IsBuilt prev next [] plan built = built
build_all-IsBuilt prev next (key ∷ order) plan built = build_all-IsBuilt prev next order _ (
    update_parent-IsBuilt _ _ _
      (add_all-IsBuilt key _ _ (get_action_graph_node-IsBuilt key plan built)))

add_edges_of-IsBuilt :
    (key : String) (edges : Dict Bool) (plan : Plan Action)
    → IsBuilt plan
    → IsBuilt (add_edges_of key edges plan)
unfolding add_edges_of
add_edges_of-IsBuilt key [] plan built = built
add_edges_of-IsBuilt key ((out, _) ∷ edges) plan built =
    let from = get_action_graph_node key plan in
    add_edges_of-IsBuilt key edges _ (
      add_before-IsBuilt (get_action_graph_node out from) key out
        (get_action_graph_node-keeps out key from (get_action_graph_node-has key plan))
        (get_action_graph_node-has out from)
        (get_action_graph_node-IsBuilt out from (get_action_graph_node-IsBuilt key plan built)))

add_edges-IsBuilt :
    (next : PolicyResolution) (order : List String) (plan : Plan Action)
    → IsBuilt plan
    → IsBuilt (add_edges next order plan)
unfolding add_edges
add_edges-IsBuilt next [] plan built = built
add_edges-IsBuilt next (key ∷ order) plan built =
    add_edges-IsBuilt next order _ (add_edges_of-IsBuilt key _ plan built)

-- The plan that turns one resolution into another is well-formed, in whatever orders the two loops
-- go through the instances.
pub compare_and_produce_actions-IsGraph :
    (prev next : PolicyResolution) (order order' : List String)
    → IsGraph (compare_and_produce_actions prev next order order')
unfolding compare_and_produce_actions
compare_and_produce_actions-IsGraph prev next order order' =
    IsBuilt-IsGraph
      (add_edges-IsBuilt next order' _ (build_all-IsBuilt prev next order [] nil-IsBuilt))
