-- ===== src/Engine/Resolver/Keyed.antt =====
-- pkg/engine/resolve/policy_resolver.go: every instance of a resolution stands under its own key,
-- and the resolution of one dependency has no instance with an error.
use aptomi.Base.{ℕ, String, ◌≡◌, some, List, [], ◌∷◌, inl, inr}
use aptomi.Base.Dict.{lookup}
use aptomi.Base.Entries.{Each, Each-lookup}
use aptomi.Base.Result.{ok, OnOk, ok-OnOk, bind-OnOk, Result-cases}
use aptomi.Lang.Objects.{Dependency}
use aptomi.Lang.Policy.{Policy}
use aptomi.Engine.Keys.{get_key}
use aptomi.Engine.Instances.{ComponentInstance}
use aptomi.Engine.Resolution.{PolicyResolution}
use aptomi.Engine.Resolution.Clean.{
  IsClean, Clean, Keyed, Clean-Keyed, append_data-Keyed, record_resolved-Clean, record_labels-Clean,
  store_edge-Clean, record_code_params-Clean, record_discovery_params-Clean,
}
use aptomi.Engine.Nodes.{External}
use aptomi.Engine.Resolver.Invariant.{Closed, resolve_node-OnOk}
use aptomi.Engine.Resolver.{
  init_resolution_node, resolve_dependency, combine_data, resolve_all_dependencies,
}

Clean-Closed : Closed Clean
Clean-Closed = record {
  record_resolved = record_resolved-Clean;
  record_labels = record_labels-Clean;
  store_edge = store_edge-Clean;
  record_code_params = record_code_params-Clean;
  record_discovery_params = record_discovery_params-Clean;
}

module _ {E : Type 0} (external : External E) (policy : Policy) where
  pub resolve_dependency-OnOk :
      (fuel : ℕ) (d : Dependency) → OnOk Clean (resolve_dependency external policy fuel d)
  unfolding resolve_dependency
  resolve_dependency-OnOk fuel d =
      bind-OnOk Clean _ _
        (resolve_node-OnOk external policy Clean Clean-Closed fuel
          (init_resolution_node external policy d) _ tt)
        (λ st _ h. ok-OnOk _ st.resolution h)

  -- When the resolution of a dependency succeeds, each instance in it stands under its own key and
  -- has no error.
  pub resolve_dependency-IsClean :
      (fuel : ℕ) (d : Dependency) (resolution : PolicyResolution) (k : String)
      (i : ComponentInstance)
      → resolve_dependency external policy fuel d ≡ ok resolution
      → lookup k resolution ≡ some i
      → IsClean k i
  resolve_dependency-IsClean fuel d resolution k i h e =
      Each-lookup IsClean k i resolution ((resolve_dependency-OnOk fuel d).at resolution h) e

  combine_data-Keyed :
      (fuel : ℕ) (d : Dependency) (resolution : PolicyResolution)
      → Each Keyed resolution
      → Each Keyed
          (combine_data external policy (resolve_dependency external policy fuel d) resolution)
  unfolding combine_data
  combine_data-Keyed fuel d resolution h =
      elim (Result-cases (resolve_dependency external policy fuel d)) [
        | inl (r, e) ↦ rw (e) (
            append_data-Keyed r resolution (Clean-Keyed r ((resolve_dependency-OnOk fuel d).at r e))
              h)
        | inr (x, e) ↦ rw (e) h
      ]

  resolve_all-Keyed :
      (fuel : ℕ) (ds : List Dependency) (resolution : PolicyResolution)
      → Each Keyed resolution
      → Each Keyed (resolve_all_dependencies external policy fuel ds resolution)
  unfolding resolve_all_dependencies
  resolve_all-Keyed fuel [] resolution h = h
  resolve_all-Keyed fuel (d ∷ rest) resolution h =
      resolve_all-Keyed fuel rest _ (combine_data-Keyed fuel d resolution h)

  -- In the resolution of all dependencies, in whichever order their data is combined and whether or
  -- not some of them fail or are in conflict, each instance stands under its own key.
  pub resolve_all_dependencies-keyed :
      (fuel : ℕ) (ds : List Dependency) (k : String) (i : ComponentInstance)
      → lookup k (resolve_all_dependencies external policy fuel ds []) ≡ some i
      → get_key i.key ≡ k
  resolve_all_dependencies-keyed fuel ds k i e =
      Each-lookup Keyed k i _ (resolve_all-Keyed fuel ds [] tt) e
