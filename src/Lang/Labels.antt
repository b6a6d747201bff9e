-- ===== src/Lang/Labels.antt =====
-- pkg/lang/labelset.go and labelset_ops.go: the labels that policy processing carries along.
pub mod Transform
use aptomi.Base.{String, Bool, true, false, Option, none, some, [], ◌∷◌, ◌==◌, if◌then◌else◌}
use aptomi.Base.Dict.{Dict, lookup, insert, erase, has}

abbrev pub label_target : String
label_target = "target"

-- A `*LabelSet` stands for the map in its one field.
abbrev pub Labels : Type 0
Labels = Dict String

-- `none` is the nil map.
abbrev pub LabelOperations : Type 0
LabelOperations = Option (Dict Labels)

-- `m[k]`, where a missing key reads as the empty string.
unfoldable pub value : String → Labels → String
value k labels = elim (lookup k labels) [ none ↦ "" | some v ↦ v ]

unfoldable pub add_labels : Labels → Labels → Labels
add_labels labels [] = labels
add_labels labels ((k, v) ∷ added) = add_labels (insert k v labels) added

unfoldable pub new_label_set : Labels → Labels
unfolding add_labels
new_label_set = add_labels []

-- `ops[name]`, where the nil map and a missing key read as the empty map.
unfoldable pub operation : String → LabelOperations → Labels
operation name none = []
operation name (some ops) = elim (lookup name ops) [ none ↦ [] | some m ↦ m ]

-- One round of the loop over `ops["set"]`.
unfoldable pub set_label : String → String → Labels × Bool → Labels × Bool
unfolding value
set_label k v (labels, changed) =
    if value k labels == v then (labels, changed) else (insert k v labels, true)

unfoldable pub set_labels : Labels × Bool → Labels → Labels × Bool
unfolding set_label
set_labels state [] = state
set_labels state ((k, v) ∷ rest) = set_labels (set_label k v state) rest

-- One round of the loop over `ops["remove"]`.
unfoldable pub remove_label : String → Labels × Bool → Labels × Bool
remove_label k (labels, changed) =
    if has k labels then (erase k labels, true) else (labels, changed)

unfoldable pub remove_labels : Labels × Bool → Labels → Labels × Bool
unfolding remove_label
remove_labels state [] = state
remove_labels state ((k, _) ∷ rest) = remove_labels (remove_label k state) rest

-- The labels after the call, and its result: whether something changed.
unfoldable pub apply_transform : Labels → LabelOperations → Labels × Bool
unfolding set_labels remove_labels operation
apply_transform labels ops =
    remove_labels (set_labels (labels, false) (operation "set" ops)) (operation "remove" ops)
