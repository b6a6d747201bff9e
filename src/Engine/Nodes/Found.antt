-- ===== src/Engine/Nodes/Found.antt =====
-- pkg/engine/resolve/policy_resolver.go: what resolveNode has found when it comes to the components.
use aptomi.Base.{◌≡◌, refl, none}
use aptomi.Base.Result.{ok, OnOk, any-OnOk, ok-OnOk, bind-OnOk}
use aptomi.Lang.Policy.{Policy}
use aptomi.Engine.Nodes.{
  External, Node, map_error, Resolved, resolve_service, check_user_exists, get_contract,
  match_context, get_matched_service, create_component_key,
}

-- The service's key is made of what has been found, and only namespace and labels of the node have
-- changed.
pub record IsFound {E : Type 0} (external : External E) (policy : Policy) (node : Node)
    (r : Resolved) : Type 0 where
  pub same_path : r.node.path ≡ node.path
  pub same_dependency : r.node.dependency ≡ node.dependency
  pub same_depth : r.node.depth ≡ node.depth
  pub same_arrival : r.node.arrival_key ≡ node.arrival_key
  pub made_key :
      create_component_key external policy r.contract r.context r.allocation_keys r.service
        r.node.labels none
      ≡ ok r.service_key

module _ {E : Type 0} (external : External E) (policy : Policy) where
  pub resolve_service-IsFound :
      (node : Node) → OnOk (IsFound external policy node) (resolve_service external policy node)
  unfolding resolve_service
  resolve_service-IsFound node =
      bind-OnOk _ _ _ (any-OnOk (check_user_exists external policy node)) (λ user _ _.
        bind-OnOk _ _ _ (any-OnOk (get_contract external policy node)) (λ c _ _.
          bind-OnOk _ _ _ (any-OnOk (match_context external policy _ c.contexts)) (λ context _ _.
            bind-OnOk _ _ _ (any-OnOk (get_matched_service external policy user c context))
              (λ s _ _. bind-OnOk _ _ _ (any-OnOk (map_error _ _)) (λ keys _ _.
                bind-OnOk _ _ _ (any-OnOk (map_error _ _)) (λ rules _ _.
                  bind-OnOk _ _ _
                    (any-OnOk
                      (create_component_key external policy c context keys s rules.labels none))
                    (λ key made _. ok-OnOk _ _ (record {
                      same_path = refl;
                      same_arrival = refl;
                      same_dependency = refl;
                      same_depth = refl;
                      made_key = made;
                    }))))))))
