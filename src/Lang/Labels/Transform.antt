-- ===== src/Lang/Labels/Transform.antt =====
-- What LabelSet.AddLabels and LabelSet.ApplyTransform do to each label.
use aptomi.Base.{
  String, ◌≡◌, refl, Bool, true, false, Option, none, some, [], ◌∷◌, arith, ◌==◌, if◌then◌else◌,
}
use aptomi.Base.Dict.{lookup, insert, erase, has, NodupKeys, lookup-insert, lookup-erase, has-none}
use aptomi.Lang.Labels.{
  Labels, LabelOperations, add_labels, operation, set_label, set_labels, remove_label,
  remove_labels, apply_transform,
}

-- The value of a key that is set: an empty value is not written over a missing label.
abbrev pub written : String → Option String → Option String
written v none = if "" == v then none else some v
written v (some w) = some v

-- A key that no operation names keeps its label; one that is set has the new value.
abbrev pub after_set : Option String → Option String → Option String
after_set none old = old
after_set (some v) old = written v old

-- The later map wins.
abbrev pub override : Option String → Option String → Option String
override none old = old
override (some v) old = some v

pub lookup-add_labels :
    (labels added : Labels) (j : String)
    → NodupKeys added
    → lookup j (add_labels labels added) ≡ override (lookup j added) (lookup j labels)
unfolding add_labels lookup
lookup-add_labels labels [] j u = refl
lookup-add_labels labels ((k, v) ∷ added) j (fresh, u) = ground (
  arith,
  lookup-add_labels (insert k v labels) added j u,
  lookup-insert j k v labels,
  has-none k added fresh,
)

lookup-set_label :
    (j k v : String) (labels : Labels) (changed : Bool)
    → lookup j (set_label k v (labels, changed)).0
      ≡ (if j == k then written v (lookup j labels) else lookup j labels)
unfolding set_label
lookup-set_label j k v labels changed = ground (arith, lookup-insert j k v labels)

lookup-set_labels :
    (state : Labels × Bool) (sets : Labels) (j : String)
    → NodupKeys sets
    → lookup j (set_labels state sets).0 ≡ after_set (lookup j sets) (lookup j state.0)
unfolding set_labels lookup
lookup-set_labels state [] j u = refl
lookup-set_labels (labels, changed) ((k, v) ∷ sets) j (fresh, u) = ground (
  arith,
  lookup-set_labels (set_label k v (labels, changed)) sets j u,
  lookup-set_label j k v labels changed,
  has-none k sets fresh,
)

lookup-remove_label :
    (j k : String) (labels : Labels) (changed : Bool)
    → lookup j (remove_label k (labels, changed)).0 ≡ (if j == k then none else lookup j labels)
unfolding remove_label
lookup-remove_label j k labels changed = ground (arith, lookup-erase j k labels, has-none k labels)

lookup-remove_labels :
    (state : Labels × Bool) (removed : Labels) (j : String)
    → lookup j (remove_labels state removed).0 ≡ (if has j removed then none else lookup j state.0)
unfolding remove_labels has
lookup-remove_labels state [] j = refl
lookup-remove_labels (labels, changed) ((k, v) ∷ removed) j = ground (
  arith,
  lookup-remove_labels (remove_label k (labels, changed)) removed j,
  lookup-remove_label j k labels changed,
)

-- ApplyTransform decides every label: a label that "remove" names is gone; else one that "set"
-- names has its new value, but an empty value is not written where the label was missing; any
-- other label is as before. "set" is a Go map, which holds a key once.
pub lookup-apply_transform :
    (labels : Labels) (ops : LabelOperations) (j : String)
    → NodupKeys (operation "set" ops)
    → lookup j (apply_transform labels ops).0 ≡ (
        if has j (operation "remove" ops)
        then none
        else after_set (lookup j (operation "set" ops)) (lookup j labels))
unfolding apply_transform
lookup-apply_transform labels ops j u = ground (
  arith,
  lookup-remove_labels (set_labels (labels, false) (operation "set" ops)) (operation "remove" ops)
      j,
  lookup-set_labels (labels, false) (operation "set" ops) j u,
)

set_labels-true : (labels sets : Labels) → (set_labels (labels, true) sets).1 ≡ true
unfolding set_labels set_label
set_labels-true labels [] = refl
set_labels-true labels ((k, v) ∷ sets) =
    ground (arith, set_labels-true labels sets, set_labels-true (insert k v labels) sets)

remove_labels-true : (labels removed : Labels) → (remove_labels (labels, true) removed).1 ≡ true
unfolding remove_labels remove_label
remove_labels-true labels [] = refl
remove_labels-true labels ((k, v) ∷ removed) =
    ground (arith, remove_labels-true labels removed, remove_labels-true (erase k labels) removed)

set_labels-eq_of_false :
    (labels sets : Labels)
    → (set_labels (labels, false) sets).1 ≡ false
    → (set_labels (labels, false) sets).0 ≡ labels
unfolding set_labels set_label
set_labels-eq_of_false labels [] h = refl
set_labels-eq_of_false labels ((k, v) ∷ sets) h =
    ground (arith, set_labels-eq_of_false labels sets, set_labels-true (insert k v labels) sets)

remove_labels-eq_of_false :
    (labels removed : Labels) (changed : Bool)
    → (remove_labels (labels, changed) removed).1 ≡ false
    → (changed ≡ false) × ((remove_labels (labels, changed) removed).0 ≡ labels)
unfolding remove_labels remove_label
remove_labels-eq_of_false labels [] changed h = (h, refl)
remove_labels-eq_of_false labels ((k, v) ∷ removed) changed h = ground (
  arith,
  remove_labels-eq_of_false labels removed changed,
  remove_labels-true (erase k labels) removed,
)

-- If ApplyTransform returns false then it has left every label as it was.
pub apply_transform-eq_of_false :
    (labels : Labels) (ops : LabelOperations)
    → (apply_transform labels ops).1 ≡ false
    → (apply_transform labels ops).0 ≡ labels
unfolding apply_transform
apply_transform-eq_of_false labels ops h =
    let (l, c) = set_labels (labels, false) (operation "set" ops) in
    ground (
      arith,
      remove_labels-eq_of_false l (operation "remove" ops) c,
      set_labels-eq_of_false labels (operation "set" ops),
    )
