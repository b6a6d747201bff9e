-- ===== src/Engine/Resolution/Marked.antt =====
-- pkg/engine/resolve/policy_resolution.go: when a dependency that a service is recorded for counts as
-- resolved.
use mathlib.Core.Option.{some-injective}
use aptomi.Base.{
  String, true, ◌≡◌, refl, ap, ◌∙◌, some, [], ◌∷◌, ◌==◌, arith, inl, inr, Bool-cases, Option-cases,
}
use aptomi.Base.Dict.{lookup}
use aptomi.Lang.Objects.{dependency, Dependency}
use aptomi.Engine.Keys.{ComponentInstanceKey, get_key, is_service}
use aptomi.Engine.Instances.{ComponentInstance}
use aptomi.Engine.Resolution.{PolicyResolution, key_for_storable, get_dependency_resolution}
use aptomi.Engine.Resolution.Clean.{Clean}
use aptomi.Engine.Resolution.Dependencies.{
  no_error, some_service, resolved-get_dependency_resolution,
}
use aptomi.Engine.Resolution.Kept.{IsMarked}

Clean-no_error : (dep : String) (r : PolicyResolution) → Clean r → no_error dep r ≡ true
Clean-no_error dep [] h = refl
Clean-no_error dep ((k, i) ∷ r) h =
    ground
      (arith, Clean-no_error dep r h.1, h.0.no_error, Option-cases (lookup dep i.dependency_keys))

lookup-some_service :
    (k dep : String) (r : PolicyResolution) (i : ComponentInstance)
    → lookup k r ≡ some i
    → lookup dep i.dependency_keys ≡ some 0
    → is_service i.key ≡ true
    → some_service dep r ≡ true
unfolding lookup
lookup-some_service k dep [] i at kept root = cc
lookup-some_service k dep ((j, i') ∷ r) i at kept root = elim (Bool-cases (k == j)) [
  | inl same ↦
      let path = some-injective i' i (ground (arith, at, same)) in ground (arith, path, kept, root)
  | inr other ↦ ground (arith, lookup-some_service k dep r i (ground (arith, at, other)) kept root)
]

-- A resolution without errors, in which a service's entry is marked at depth 0.
pub marked-resolved :
    (key : ComponentInstanceKey) (d : Dependency) (r : PolicyResolution)
    → is_service key ≡ true
    → Clean r
    → IsMarked (get_key key) key (key_for_storable (dependency d)) 0 r
    → (get_dependency_resolution d r).resolved ≡ true
marked-resolved key d r root clean marked =
    let dep = key_for_storable (dependency d) in
    ground (
      arith,
      resolved-get_dependency_resolution d r,
      Clean-no_error dep r clean,
      lookup-some_service (get_key key) dep r marked.instance marked.at marked.kept
          (ap is_service marked.same ∙ root),
    )
