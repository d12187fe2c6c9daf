-- ===== src/Main/Labels/Keys.antt =====
-- Labels of cmd/kured/main.go: which make `updateNodeLabels` panic, and what `validateNodeLabels` accepts.
use kured.Common.{
  ℕ, suc, ◌≡◌, ◌↔◌, refl, sym, subst, ◌∙◌, inl, inr, Bool, true, false, ◌&&◌, ◌||◌, some, is_some,
  List, [], ◌∷◌, map, Text, text_eq, text_eq_iff, insert, ◌==◌, if◌then◌else◌, arith, Bool-cases,
  Option-cases,
}
use kured.Kube.{Node}
use kured.Kube.Program.{panics}
use kured.Kube.Trace.{Event, stopped, World, exec}
use kured.Blockers.Prometheus.{insert_sorted, sort_strings}
use kured.Main.Labels.{
  cons_first, split, key_and_value, labels_map, patch_node_labels, update_node_labels, label_key,
  same_texts, validate_node_labels,
}

abbrev pub contains_byte : ℕ → Text → Bool
contains_byte c [] = false
contains_byte c (b ∷ s) = b == c || contains_byte c s

-- Every label has an equals sign.
abbrev pub well_formed : List Text → Bool
well_formed [] = true
well_formed (l ∷ ls) = contains_byte b'=' l && well_formed ls

abbrev is_cons : List Text → Bool
is_cons [] = false
is_cons (t ∷ ts) = true

split-is_cons : (sep : ℕ) (s : Text) → is_cons (split sep s) ≡ true
unfolding split
split-is_cons sep [] = refl
split-is_cons sep (c ∷ s) = elim (Bool-cases (c == sep)) [
  | inl e ↦ rw e refl
  | inr e ↦ rw e (first (split sep s))
]
  where
    first : (ts : List Text) → is_cons (cons_first c ts) ≡ true
    first [] = refl
    first (t ∷ ts) = refl

key_and_value-split :
    (sep : ℕ) (s : Text) → is_some (key_and_value (split sep s)) ≡ contains_byte sep s
unfolding split
key_and_value-split sep [] = refl
key_and_value-split sep (c ∷ s) = elim (Bool-cases (c == sep)) [
  | inl e ↦ rw e (second (split sep s) (split-is_cons sep s))
  | inr e ↦ rw e (same (split sep s) ∙ key_and_value-split sep s)
]
  where
    second : (ts : List Text) → is_cons ts ≡ true → is_some (key_and_value ([] ∷ ts)) ≡ true
    second [] e = cc
    second (t ∷ ts) e = refl

    same : (ts : List Text) → is_some (key_and_value (cons_first c ts)) ≡ is_some (key_and_value ts)
    same [] = refl
    same (t ∷ []) = refl
    same (t ∷ u ∷ us) = refl

pub labels_map-well_formed :
    (ls : List Text) (m : List (Text × Text)) → is_some (labels_map ls m) ≡ well_formed ls
unfolding labels_map
labels_map-well_formed [] m = refl
labels_map-well_formed (l ∷ ls) m = elim (Option-cases (key_and_value (split b'=' l))) [
  | inl bad ↦ ground (arith, key_and_value-split b'=' l)
  | inr (kv, found) ↦
      ground (arith, key_and_value-split b'=' l, labels_map-well_formed ls (insert kv.0 kv.1 m))
]

-- `updateNodeLabels` panics exactly if a label has no equals sign, whatever the API answers.
pub update_node_labels-well_formed :
    (w : World) (h : List Event) (node : Node) (labels : List Text)
    → ((exec w h (update_node_labels node labels)).0 ≡ stopped panics)
      ↔ (well_formed labels ≡ false)
unfolding exec update_node_labels
update_node_labels-well_formed w h node labels = elim (Option-cases (labels_map labels [])) [
  | inl bad ↦ (λ e. ground (arith, labels_map-well_formed labels []), λ e. rw bad refl)
  | inr (m, made) ↦ (
    λ e.
        let ended : (exec w h (patch_node_labels node (some m))).0 ≡ stopped panics =
          subst (λ o. (exec w h (patch_node_labels node o)).0 ≡ stopped panics) made e in
        cc,
    λ e. absurd (ground (arith, labels_map-well_formed labels [])),
  )
]

-- How often a text is in a list.
abbrev pub count : Text → List Text → ℕ
count t [] = 0
count t (u ∷ us) = if text_eq u t then suc (count t us) else count t us

count-insert_sorted :
    (t u : Text) (us : List Text) → count t (insert_sorted u us) ≡ count t (u ∷ us)
unfolding insert_sorted
count-insert_sorted t u [] = refl
count-insert_sorted t u (v ∷ us) = ground (arith, count-insert_sorted t u us)

count-sort_strings : (t : Text) (us : List Text) → count t (sort_strings us) ≡ count t us
unfolding sort_strings
count-sort_strings t [] = refl
count-sort_strings t (u ∷ us) =
    ground (arith, count-insert_sorted t u (sort_strings us), count-sort_strings t us)

same_texts-count :
    (t : Text) (us vs : List Text) → same_texts us vs ≡ true → count t us ≡ count t vs
same_texts-count t [] [] e = refl
same_texts-count t (u ∷ us) [] e = cc
same_texts-count t [] (v ∷ vs) e = cc
same_texts-count t (u ∷ us) (v ∷ vs) e = ground (arith, text_eq_iff u v, same_texts-count t us vs)

-- If `validateNodeLabels` accepts the labels, every key is as often among those from before the reboot as
-- among those from after it.
pub validate_node_labels-count :
    (pre post : List Text) (key : Text)
    → validate_node_labels pre post ≡ true
    → count key (map label_key pre) ≡ count key (map label_key post)
unfolding validate_node_labels
validate_node_labels-count pre post key e =
    sym (count-sort_strings key (map label_key pre))
    ∙ same_texts-count key _ _ e
    ∙ count-sort_strings key (map label_key post)
