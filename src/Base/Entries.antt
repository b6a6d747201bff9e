-- ===== src/Base/Entries.antt =====
-- What holds of every entry of a map.
use mathlib.Core.Path.{◌≡◌, sym, subst}
use mathlib.Core.Logic.{inl, inr}
use mathlib.Core.Option.{some}
use mathlib.Core.List.{[], ◌∷◌}
use Prim.Native.String.{String}
use native.Mathlib.Omega.{arith}
use aptomi.Base.Tests.{◌==◌, Bool-cases, eq_of_test}
use aptomi.Base.Dict.{Dict, lookup, insert}

module _ {V : Type 0} (P : String → V → Type 0) where
  abbrev pub Each : Dict V → Type 0
  Each [] = Unit
  Each ((k, v) ∷ d) = P k v × Each d

  pub Each-insert : (k : String) (v : V) (d : Dict V) → P k v → Each d → Each (insert k v d)
  unfolding insert
  Each-insert k v [] here h = (here, tt)
  Each-insert k v ((j, w) ∷ d) here h = elim (Bool-cases (k == j)) [
    | inl same ↦ rw (same, insert) (here, h.1)
    | inr other ↦ rw (other, insert) (h.0, Each-insert k v d here h.1)
  ]

  pub Each-lookup : (k : String) (v : V) (d : Dict V) → Each d → lookup k d ≡ some v → P k v
  unfolding lookup
  Each-lookup k v [] h e = absurd (ground (arith, e))
  Each-lookup k v ((j, w) ∷ d) h e = elim (Bool-cases (k == j)) [
    | inl same ↦
        subst (λ x. P x v) (sym (eq_of_test k j same)) (subst (P j) (ground (arith, e, same)) h.0)
    | inr other ↦ Each-lookup k v d h.1 (ground (arith, e, other))
  ]
