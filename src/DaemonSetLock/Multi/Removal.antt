-- ===== src/DaemonSetLock/Multi/Removal.antt =====
-- The loop of `Release` of pkg/daemonsetlock/daemonsetlock.go's `DaemonSetMultiLock`, and `Holding`.
use kured.Common.{
  ℕ, suc, ◌≤◌, ◌≡◌, ◌≢◌, ◌⊎◌, inl, inr, refl, sym, ap, subst, ◌∙◌, ◌&&◌, not, true, false, none,
  some, List, [], ◌∷◌, ◌++◌, Text, text_eq, text_eq_iff, length, length-append, arith, Bool-cases,
  All,
}
use kured.DaemonSetLock.Value.{LockAnnotationValue, is_expired}
use kured.DaemonSetLock.Multi.{remove_lock, find_holding}
use kured.DaemonSetLock.Cluster.{Among}

-- `r` is the list without the node's first lock: what stands before that is of other nodes.
pub data Removed (node : Text) (l r : List LockAnnotationValue) : Type 0 where
  at :
      (before after : List LockAnnotationValue) (v : LockAnnotationValue)
      → l ≡ before ++ v ∷ after
      → r ≡ before ++ after
      → v.node_id ≡ node
      → All (λ (w : LockAnnotationValue). w.node_id ≢ node) before
      → Removed node l r

-- `Release` removes the node's first lock and nothing else; it finds none exactly when no lock is
-- the node's.
pub remove_lock-Removed :
    (node : Text) (l : List LockAnnotationValue)
    → ((remove_lock node l ≡ none) × All (λ (w : LockAnnotationValue). w.node_id ≢ node) l)
      ⊎ ((r : List LockAnnotationValue) × (remove_lock node l ≡ some r) × Removed node l r)
unfolding remove_lock
remove_lock-Removed node [] = inl (refl, tt)
remove_lock-Removed node (v ∷ vs) = elim (Bool-cases (text_eq v.node_id node)) [
  | inl e ↦ inr (vs, rw e refl, at [] vs v refl refl ((text_eq_iff v.node_id node).0 e) tt)
  | inr e ↦ elim (remove_lock-Removed node vs) [
    | inl (none', others) ↦
        inl (rw (e, none') refl, ((λ same. ground (arith, text_eq_iff v.node_id node)), others))
    | inr (r, found, at before after w split joined its others) ↦ inr (
      v ∷ r,
      rw (e, found) refl,
      at (v ∷ before) after w (ap (◌∷◌ v) split) (ap (◌∷◌ v) joined) its
          ((λ same. ground (arith, text_eq_iff v.node_id node)), others),
    )
  ]
]

Among-split :
    (w v : LockAnnotationValue) (before after : List LockAnnotationValue)
    → Among w (before ++ v ∷ after)
    → Among w (before ++ after) ⊎ (w ≡ v)
Among-split w v [] after (inl e) = inr e
Among-split w v [] after (inr h) = inl h
Among-split w v (x ∷ before) after (inl e) = inl (inl e)
Among-split w v (x ∷ before) after (inr h) = elim (Among-split w v before after h) [
  | inl k ↦ inl (inr k)
  | inr e ↦ inr e
]

-- Removal as the interface of the nodes wants it.
pub remove_lock-keeps :
    (node : Text) (l r : List LockAnnotationValue)
    → Removed node l r
    → (w : LockAnnotationValue) → Among w l
    → Among w r ⊎ (w.node_id ≡ node)
remove_lock-keeps node l r (at before after v split joined its others) w h =
    elim (Among-split w v before after (subst (Among w) split h)) [
      | inl k ↦ inl (subst (Among w) (sym joined) k)
      | inr e ↦ inr (ap (λ (u : LockAnnotationValue). u.node_id) e ∙ its)
    ]

pub remove_lock-length :
    (node : Text) (l r : List LockAnnotationValue) → Removed node l r → length l ≡ suc (length r)
remove_lock-length node l r (at before after v split joined its others) = omega (
  arith,
  ap length split,
  ap length joined,
  length-append before (v ∷ after),
  length-append before after,
)

pub Removed-length-le :
    (node : Text) (l r : List LockAnnotationValue) → Removed node l r → length r ≤ length l
Removed-length-le node l r h = omega (arith, remove_lock-length node l r h)

-- A node whose lock is the last and only one of its own: `Release` undoes `Acquire`.
pub remove_lock-append :
    (node : Text) (l : List LockAnnotationValue) (own : LockAnnotationValue)
    → own.node_id ≡ node
    → All (λ (w : LockAnnotationValue). w.node_id ≢ node) l
    → remove_lock node (l ++ own ∷ []) ≡ some l
unfolding remove_lock
remove_lock-append node [] own e others = ground (arith, text_eq_iff own.node_id node)
remove_lock-append node (v ∷ l) own e (other, others) =
    ground (arith, text_eq_iff v.node_id node, remove_lock-append node l own e others)

-- `Holding` finds a lock of the node that has not expired, if there is one.
pub find_holding-Among :
    (node : Text) (now : ℕ) (l : List LockAnnotationValue) (v : LockAnnotationValue)
    → find_holding node now l ≡ some v
    → Among v l × (v.node_id ≡ node) × (is_expired now v ≡ false)
unfolding find_holding
find_holding-Among node now [] v e = cc
find_holding-Among node now (w ∷ ws) v e =
    elim (Bool-cases (text_eq w.node_id node && not (is_expired now w))) [
      | inl t ↦
          let same : w ≡ v = ground arith in
          (inl (sym same), rw (← same) (ground (arith, text_eq_iff w.node_id node)), ground arith)
      | inr f ↦
          let (h, its, live) = find_holding-Among node now ws v (ground arith) in (inr h, its, live)
    ]

pub find_holding-none :
    (node : Text) (now : ℕ) (l : List LockAnnotationValue) (v : LockAnnotationValue)
    → find_holding node now l ≡ none
    → Among v l
    → v.node_id ≡ node
    → is_expired now v ≡ true
unfolding find_holding
find_holding-none node now [] v e h its = absurd h
find_holding-none node now (w ∷ ws) v e (inl same) its = ground (arith, text_eq_iff w.node_id node)
find_holding-none node now (w ∷ ws) v e (inr h) its =
    find_holding-none node now ws v (ground arith) h its
