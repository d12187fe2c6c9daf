-- ===== src/Taints/Changes.antt =====
-- What the patches of pkg/taints/taints.go change in a node.
use kured.Common.{
  ℕ, suc, ◌≡◌, refl, sym, ap, ◌∙◌, subst, Bool, true, false, ◌||◌, is_some, List, [], ◌∷◌, ◌++◌,
  Text, text_eq, length, arith, if◌then◌else◌, Bool-cases, inl, inr,
}
use kured.Kube.{
  TaintValue, Node, PatchTaints, test, add, remove, spec, taints, taints_end, taints_at, no_value,
  the_spec, the_taints, the_taint,
}
use kured.Taints.{find_taint, is_empty, new_taint, patches}
use kured.Taints.Patch.{Patches}

abbrev pub has_key : Text → List TaintValue → Bool
has_key name [] = false
has_key name (t ∷ ts) = text_eq t.key name || has_key name ts

-- The taint is added behind the others, or one that equals it is taken away; nothing else changes.
abbrev pub Changes : Bool → TaintValue → Node → Node → Type 0
Changes true t n m = (m.taints ≡ n.taints ++ t ∷ []) × (m.unschedulable ≡ n.unschedulable)
Changes false t n m =
    (before : List TaintValue) × (after : List TaintValue) × (n.taints ≡ before ++ t ∷ after)
    × (m.taints ≡ before ++ after)
    × (m.unschedulable ≡ n.unschedulable)

pub find_taint-has_key :
    (name : Text) (ts : List TaintValue) (i : ℕ) → is_some (find_taint name ts i) ≡ has_key name ts
unfolding find_taint
find_taint-has_key name [] i = refl
find_taint-has_key name (t ∷ ts) i = elim (Bool-cases (text_eq t.key name)) [
  | inl e ↦ rw e refl
  | inr e ↦ rw e (find_taint-has_key name ts (suc i))
]

is_empty-nil : (ts : List TaintValue) → is_empty ts ≡ true → ts ≡ []
is_empty-nil [] e = refl
is_empty-nil (t ∷ ts) e = absurd (ground arith)

abbrev taints_of : Node → List TaintValue
taints_of n = n.taints

abbrev unschedulable_of : Node → Bool
unschedulable_of n = n.unschedulable

-- A patch that adds the taint does just that, to the node as it is then.
pub patches-added :
    (name effect : Text) (i : ℕ) (n old new : Node)
    → Patches (patches name effect false i n) old new
    → Changes true (new_taint name effect) old new
unfolding patches
patches-added name effect i n old new = by_list (is_empty n.taints) refl
  where
    tested_and_added : List PatchTaints
    tested_and_added =
        record { op = test; path = spec; value = the_spec n }
        ∷ record { op = add; path = taints; value = the_taints [] }
        ∷ record { op = add; path = taints_end; value = the_taint (new_taint name effect) }
        ∷ []

    just_added : List PatchTaints
    just_added =
        record { op = add; path = taints_end; value = the_taint (new_taint name effect) } ∷ []

    by_list :
        (b : Bool)
        → is_empty n.taints ≡ b
        → Patches (if b then tested_and_added else just_added) old new
        → Changes true (new_taint name effect) old new
    by_list true e (k, (same_spec, same_taints, k_is), (l, l_is, (m, m_is, new_is))) =
        let none_there : old.taints ≡ [] = sym same_taints ∙ is_empty-nil n.taints e in
        (
          ap taints_of new_is
              ∙ (ap taints_of m_is
                  ∙ (ap with_taint (ap taints_of l_is) ∙ ap with_taint (sym none_there))),
          ap unschedulable_of new_is
              ∙ (ap unschedulable_of m_is ∙ (ap unschedulable_of l_is ∙ ap unschedulable_of k_is)),
        )
      where
        with_taint : List TaintValue → List TaintValue
        with_taint ts = ts ++ new_taint name effect ∷ []
    by_list false e (k, k_is, new_is) = (
      ap taints_of new_is ∙ ap taints_of k_is,
      ap unschedulable_of new_is ∙ ap unschedulable_of k_is,
    )

-- One list has one taint at an offset.
same_offset :
    (b b' a a' : List TaintValue) (t u : TaintValue)
    → b ++ t ∷ a ≡ b' ++ u ∷ a'
    → length b ≡ length b'
    → t ≡ u
same_offset [] [] a a' t u e l = ground arith
same_offset [] (x ∷ b') a a' t u e l = absurd (ground arith)
same_offset (x ∷ b) [] a a' t u e l = absurd (ground arith)
same_offset (x ∷ b) (y ∷ b') a a' t u e l =
    let rest : b ++ t ∷ a ≡ b' ++ u ∷ a' = ground arith in
    let shorter : length b ≡ length b' = omega arith in same_offset b b' a a' t u rest shorter

-- A patch that removes the taint does just that.
pub patches-removed :
    (name effect : Text) (i : ℕ) (n old new : Node)
    → is_empty n.taints ≡ false
    → Patches (patches name effect true i n) old new
    → Changes false (new_taint name effect) old new
unfolding patches
patches-removed name effect i n old new = by_list (is_empty n.taints)
  where
    other : List PatchTaints
    other =
        record { op = test; path = spec; value = the_spec n }
        ∷ record { op = add; path = taints; value = the_taints [] }
        ∷ record { op = add; path = taints_end; value = the_taint (new_taint name effect) }
        ∷ []

    removed : List PatchTaints
    removed =
        record { op = test; path = taints_at i; value = the_taint (new_taint name effect) }
        ∷ record { op = remove; path = taints_at i; value = no_value }
        ∷ []

    by_list :
        (b : Bool)
        → b ≡ false
        → Patches (if b then other else removed) old new
        → Changes false (new_taint name effect) old new
    by_list true e p = absurd (ground arith)
    by_list false e (k, (tested, k_is), (m, (u, s, m_is), new_is)) =
        let old_is : old.taints ≡ s.before ++ u ∷ s.after = sym (ap taints_of k_is) ∙ s.whole in
        let same : new_taint name effect ≡ u =
          same_offset tested.before s.before tested.after s.after (new_taint name effect) u
            (sym tested.whole ∙ old_is) (tested.offset ∙ sym s.offset) in
        (
          s.before,
          s.after,
          subst (λ t. old.taints ≡ s.before ++ t ∷ s.after) (sym same) old_is,
          ap taints_of new_is ∙ ap taints_of m_is,
          ap unschedulable_of new_is ∙ (ap unschedulable_of m_is ∙ ap unschedulable_of k_is),
        )
