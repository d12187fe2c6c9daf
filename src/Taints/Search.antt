-- ===== src/Taints/Search.antt =====
-- The search of `taintExists` in pkg/taints/taints.go.
use kured.Common.{
  ℕ, suc, ◌+◌, ◌≡◌, ◌≢◌, ◌⊎◌, inl, inr, refl, ap, none, some, List, [], ◌∷◌, ◌++◌, Text, text_eq,
  text_eq_iff, length, All, arith, Bool-cases,
}
use kured.Kube.{TaintValue}
use kured.Taints.{find_taint}

-- The list around its first taint with the key, at an offset that counts from `i`.
pub data Found (name : Text) (ts : List TaintValue) (i n : ℕ) : Type 0 where
  at :
      (before after : List TaintValue) (t : TaintValue)
      → ts ≡ before ++ t ∷ after
      → n ≡ length before + i
      → t.key ≡ name
      → All (λ (u : TaintValue). u.key ≢ name) before
      → Found name ts i n

-- The search gives nothing if no taint has the key, and else the offset of the first that has it.
pub find_taint-Found :
    (name : Text) (ts : List TaintValue) (i : ℕ)
    → ((find_taint name ts i ≡ none) × All (λ (u : TaintValue). u.key ≢ name) ts)
      ⊎ ((n : ℕ) × (find_taint name ts i ≡ some n) × Found name ts i n)
unfolding find_taint
find_taint-Found name [] i = inl (refl, tt)
find_taint-Found name (t ∷ ts) i = elim (Bool-cases (text_eq t.key name)) [
  | inl e ↦ inr (i, rw e refl, at [] ts t refl (omega arith) ((text_eq_iff t.key name).0 e) tt)
  | inr e ↦ elim (find_taint-Found name ts (suc i)) [
    | inl (none', others) ↦
        inl (rw (e, none') refl, ((λ same. ground (arith, text_eq_iff t.key name)), others))
    | inr (n, found, at before after u split offset its others) ↦ inr (
      n,
      rw (e, found) refl,
      at (t ∷ before) after u (ap (◌∷◌ t) split) (omega (arith, offset)) its
          ((λ same. ground (arith, text_eq_iff t.key name)), others),
    )
  ]
]
