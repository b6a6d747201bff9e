-- ===== src/Base/Dict.antt =====
-- Go's maps with string keys. The list's order stands for the order in which `range` goes through
-- the map; Go leaves that order open, so theorems hold for every list.
use mathlib.Core.Path.{◌≡◌, refl}
use mathlib.Core.Bool.{Bool, true, false, ◌||◌}
use mathlib.Core.Option.{Option, none, some}
use mathlib.Core.List.{List, [], ◌∷◌}
use Prim.Native.String.{String}
use native.Mathlib.Omega.{arith}
use aptomi.Base.Tests.{◌==◌, if◌then◌else◌}

abbrev pub Dict {ℓ} : Type ℓ → Type ℓ
Dict V = List (String × V)

unfoldable pub keys {ℓ} : {V : Type ℓ} → Dict V → List String
keys [] = []
keys ((k, _) ∷ d) = k ∷ keys d

module _ {ℓ} {V : Type ℓ} where
  -- `v, ok := d[k]`
  unfoldable pub lookup : String → Dict V → Option V
  lookup k [] = none
  lookup k ((j, v) ∷ d) = if k == j then some v else lookup k d

  -- `d[k] = v`
  unfoldable pub insert : String → V → Dict V → Dict V
  insert k v [] = (k, v) ∷ []
  insert k v ((j, w) ∷ d) = if k == j then (k, v) ∷ d else (j, w) ∷ insert k v d

  -- `delete(d, k)`
  unfoldable pub erase : String → Dict V → Dict V
  erase k [] = []
  erase k ((j, w) ∷ d) = let rest = erase k d in if k == j then rest else (j, w) ∷ rest

  -- `_, ok := d[k]`
  unfoldable pub has : String → Dict V → Bool
  has k [] = false
  has k ((j, v) ∷ d) = k == j || has k d

  -- A Go map holds a key once.
  abbrev pub NodupKeys : Dict V → Type 0
  NodupKeys [] = Unit
  NodupKeys ((k, _) ∷ d) = (has k d ≡ false) × NodupKeys d

  pub lookup-nil : (k : String) → lookup k [] ≡ none
  unfolding lookup
  lookup-nil k = refl

  pub lookup-insert :
      (j k : String) (v : V) (d : Dict V)
      → lookup j (insert k v d) ≡ (if j == k then some v else lookup j d)
  unfolding insert lookup
  lookup-insert j k v [] = refl
  lookup-insert j k v (_ ∷ d) = ground (arith, lookup-insert j k v d)

  pub lookup-erase :
      (j k : String) (d : Dict V) → lookup j (erase k d) ≡ (if j == k then none else lookup j d)
  unfolding erase lookup
  lookup-erase j k [] = ground arith
  lookup-erase j k (_ ∷ d) = ground (arith, lookup-erase j k d)

  pub has-insert : (j k : String) (v : V) (d : Dict V) → has j (insert k v d) ≡ (j == k || has j d)
  unfolding insert has
  has-insert j k v [] = refl
  has-insert j k v (_ ∷ d) = ground (arith, has-insert j k v d)

  pub has-erase :
      (j k : String) (d : Dict V) → has j (erase k d) ≡ (if j == k then false else has j d)
  unfolding erase has
  has-erase j k [] = ground arith
  has-erase j k (_ ∷ d) = ground (arith, has-erase j k d)

  pub insert-NodupKeys : (k : String) (v : V) (d : Dict V) → NodupKeys d → NodupKeys (insert k v d)
  unfolding insert has
  insert-NodupKeys k v [] _ = (refl, tt)
  insert-NodupKeys k v ((j, _) ∷ d) (fresh, u) =
      ground (arith, insert-NodupKeys k v d u, has-insert j k v d)

  pub erase-NodupKeys : (k : String) (d : Dict V) → NodupKeys d → NodupKeys (erase k d)
  unfolding erase has
  erase-NodupKeys k [] _ = tt
  erase-NodupKeys k ((j, _) ∷ d) (fresh, u) = ground (arith, erase-NodupKeys k d u, has-erase j k d)

  pub has-none : (k : String) (d : Dict V) → has k d ≡ false → lookup k d ≡ none
  unfolding has lookup
  has-none k [] h = refl
  has-none k (_ ∷ d) h = ground (arith, has-none k d)

  pub has-some : (k : String) (v : V) (d : Dict V) → lookup k d ≡ some v → has k d ≡ true
  unfolding has lookup
  has-some k v [] h = cc
  has-some k v (_ ∷ d) h = ground (arith, has-some k v d)

pub ruleset dict_laws = (lookup-insert, lookup-erase, has-insert, has-erase)
