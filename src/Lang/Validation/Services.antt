-- ===== src/Lang/Validation/Services.antt =====
-- pkg/lang/validation.go: what a service is like in which validateService finds no error.
use aptomi.Base.{String, Bool, true, false, ◌||◌, ◌≡◌, List, ◌==◌}
use aptomi.Base.Dict.{Dict, has}
use aptomi.Base.Lists.{All}
use aptomi.Base.Result.{ok}
use aptomi.Lang.Components.{sorted_topologically}
use aptomi.Lang.Components.Dfs.{has_name, NodupNames}
use aptomi.Lang.Objects.{Service, ServiceComponent}
use aptomi.Lang.Policy.{Policy}
use aptomi.Lang.Validation.{exists_object, code_or_contract}

-- Either code or a contract that there is.
abbrev pub IsWhole : Policy → String → ServiceComponent → Type 0
IsWhole policy ns c =
    (code_or_contract c.code c.contract ≡ true)
    × ((c.contract == "" || exists_object "contract" c.contract ns policy) ≡ true)

-- Every dependency is a name of the service's components.
abbrev pub IsLinked : List ServiceComponent → ServiceComponent → Type 0
IsLinked components c = All (λ d. has_name d components ≡ true) c.dependencies

pub record IsValidService (policy : Policy) (service : Service) : Type 0 where
  pub whole : All (IsWhole policy service.metadata.namespace) service.components
  pub nodup : NodupNames service.components
  pub sorted : (l : List ServiceComponent) × (sorted_topologically service ≡ ok l)
  pub linked : All (IsLinked service.components) service.components

abbrev AreNew : Dict Bool → List ServiceComponent → Type 0
AreNew names = All (λ c. has c.name names ≡ false)

-- The names that have been gathered.
record IsGathered (names names' : Dict Bool) (cs : List ServiceComponent) : Type 0 where
  nodup : NodupNames cs
  fresh : AreNew names cs
  gathered : (n : String) → has n names' ≡ (has_name n cs || has n names)
