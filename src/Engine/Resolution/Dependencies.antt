-- ===== src/Engine/Resolution/Dependencies.antt =====
-- pkg/engine/resolve/policy_resolution.go: what GetDependencyResolution says of a dependency.
use Prim.Native.Char.{Char}
use Prim.Native.String.{◌++◌}
use text.Mathlib.TextLemmas.{nil-append, cons-append}
use aptomi.Base.{
  String, Bool, true, false, not, ◌&&◌, ◌||◌, ◌≡◌, ap, inl, inr, eq_of_test, Bool-cases,
  Option-cases, none, some, [], ◌∷◌, ◌==◌, nat_eq, arith,
}
use aptomi.Base.Dict.{lookup}
use aptomi.Lang.Objects.{dependency, Dependency}
use aptomi.Engine.Keys.{ComponentInstanceKey, get_key, is_service}
use aptomi.Engine.Resolution.{
  PolicyResolution, Search, is_none, visit, search, get_dependency_resolution, key_for_storable,
}

abbrev is_empty : String → Bool
is_empty String.[] = true
is_empty (String.◌∷◌ c s) = false

cons-ne-empty : (c : Char) (s : String) → ((String.◌∷◌ c s) == "") ≡ false
cons-ne-empty c s = elim (Bool-cases (String.◌∷◌ c s == "")) [
  | inl same ↦ ground (arith, ap is_empty (eq_of_test (String.◌∷◌ c s) "" same))
  | inr other ↦ other
]

concat-ne-empty : (s t : String) → ((s ++ ("#" ++ t)) == "") ≡ false
concat-ne-empty String.[] t =
    rw (nil-append ("#" ++ t), cons-append "#" "" t) (cons-ne-empty "#" ("" ++ t))
concat-ne-empty (String.◌∷◌ c s) t =
    rw (cons-append c s ("#" ++ t)) (cons-ne-empty c (s ++ ("#" ++ t)))

get_key-ne-empty : (k : ComponentInstanceKey) → (get_key k == "") ≡ false
unfolding get_key
get_key-ne-empty k = concat-ne-empty k.cluster_namespace _

-- No instance that the dependency keeps has an error.
abbrev pub no_error : String → PolicyResolution → Bool
no_error d [] = true
no_error d ((_, i) ∷ rest) =
    elim (lookup d i.dependency_keys) [ none ↦ true | some _ ↦ is_none i.error ] && no_error d rest

-- Some service instance is kept by the dependency at depth 0.
abbrev pub some_service : String → PolicyResolution → Bool
some_service d [] = false
some_service d ((_, i) ∷ rest) =
    elim (lookup d i.dependency_keys) [
      | none ↦ false
      | some depth ↦ nat_eq depth 0 && is_service i.key
    ]
    || some_service d rest

search-error :
    (d : String) (resolution : PolicyResolution) (s : Search)
    → is_none (search d resolution s).error ≡ (is_none s.error && no_error d resolution)
unfolding search visit
search-error d [] s = ground arith
search-error d ((_, i) ∷ rest) s = elim (Option-cases (lookup d i.dependency_keys)) [
  | inl missing ↦ ground (arith, missing, search-error d rest s)
  | inr (depth, at) ↦ ground (arith, at, search-error d rest (visit depth i s))
]

search-component_key :
    (d : String) (resolution : PolicyResolution) (s : Search)
    → not ((search d resolution s).component_key == "")
      ≡ (not (s.component_key == "") || some_service d resolution)
unfolding search visit
search-component_key d [] s = ground arith
search-component_key d ((_, i) ∷ rest) s = elim (Option-cases (lookup d i.dependency_keys)) [
  | inl missing ↦ ground (arith, missing, search-component_key d rest s)
  | inr (depth, at) ↦
      ground (arith, at, search-component_key d rest (visit depth i s), get_key-ne-empty i.key)
]

-- A dependency counts as resolved exactly when no instance that it keeps has an error and it keeps
-- some service instance at depth 0.
pub resolved-get_dependency_resolution :
    (d : Dependency) (resolution : PolicyResolution)
    → (get_dependency_resolution d resolution).resolved ≡ (
        no_error (key_for_storable (dependency d)) resolution
        && some_service (key_for_storable (dependency d)) resolution)
unfolding get_dependency_resolution
resolved-get_dependency_resolution d resolution = ground (
  arith,
  search-error (key_for_storable (dependency d)) resolution
      (record { error = none; component_key = "" }),
  search-component_key (key_for_storable (dependency d)) resolution
      (record { error = none; component_key = "" }),
)
