-- ===== src/Main/Labels.antt =====
-- cmd/kured/main.go: `updateNodeLabels` and `validateNodeLabels`, with the functions of Go's `strings`
-- that they use.
pub mod Keys
use kured.Common.{
  Bool, true, false, ◌&&◌, map, text_eq, ℕ, Option, none, some, List, [], ◌∷◌, Text, insert, ◌==◌,
  if◌then◌else◌,
}
use kured.Blockers.Prometheus.{sort_strings}
use kured.Kube.{Node, patch_labels}
use kured.Kube.Program.{Program, ret, halt, panics, ask, ◌>>=◌}

abbrev pub cons_first : ℕ → List Text → List Text
cons_first c [] = (c ∷ []) ∷ []
cons_first c (t ∷ ts) = (c ∷ t) ∷ ts

-- `strings.Split` by a separator of one byte.
unfoldable pub split : ℕ → Text → List Text
split sep [] = [] ∷ []
split sep (c ∷ s) = if c == sep then [] ∷ split sep s else cons_first c (split sep s)

-- The elements 0 and 1 of a split label; `none` is the panic of an index out of range.
abbrev pub key_and_value : List Text → Option (Text × Text)
key_and_value (k ∷ v ∷ rest) = some (k, v)
key_and_value _ = none

abbrev pub add_label :
    Option (Text × Text)
    → (List (Text × Text) → Option (List (Text × Text)))
    → List (Text × Text)
    → Option (List (Text × Text))
add_label none rest m = none
add_label (some (k, v)) rest m = rest (insert k v m)

-- The map that the loop of `updateNodeLabels` fills.
unfoldable pub labels_map : List Text → List (Text × Text) → Option (List (Text × Text))
unfolding split
labels_map [] m = some m
labels_map (l ∷ ls) m = add_label (key_and_value (split b'=' l)) (labels_map ls) m

abbrev pub patch_node_labels : Node → Option (List (Text × Text)) → Program (Unit {0})
patch_node_labels node none = halt panics
patch_node_labels node (some m) = ask (patch_labels node.name m) >>= λ ok. ret tt

unfoldable pub update_node_labels : Node → List Text → Program (Unit {0})
unfolding labels_map
update_node_labels node labels = patch_node_labels node (labels_map labels [])

-- The element 0 of a split label, which is always there.
abbrev pub first_of : List Text → Text
first_of [] = []
first_of (k ∷ rest) = k

unfoldable pub label_key : Text → Text
unfolding split
label_key l = first_of (split b'=' l)

-- `reflect.DeepEqual` on slices of strings that `append` has filled from nil.
abbrev pub same_texts : List Text → List Text → Bool
same_texts [] [] = true
same_texts (s ∷ ss) (t ∷ ts) = text_eq s t && same_texts ss ts
same_texts _ _ = false

-- `validateNodeLabels`; false is the error.
unfoldable pub validate_node_labels : List Text → List Text → Bool
unfolding label_key sort_strings
validate_node_labels pre_reboot_node_labels post_reboot_node_labels =
    same_texts (sort_strings (map label_key pre_reboot_node_labels))
      (sort_strings (map label_key post_reboot_node_labels))
