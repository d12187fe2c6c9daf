-- ===== src/DaemonSetLock/Multi/Reentry.antt =====
-- A node that acquires the lock of several owners again, after its first lock has expired, in
-- pkg/daemonsetlock/daemonsetlock.go; and the reply of a refused `Acquire`.
use kured.Common.{
  ℕ, ◌≡◌, ◌≢◌, refl, ap, sym, ◌∙◌, inl, inr, Bool, true, false, none, some, List, [], ◌∷◌, ◌++◌,
  Text, All, ℤ, pos, suc, arith, Option-cases,
}
use kured.DaemonSetLock.Value.{
  NodeMeta, LockAnnotationValue, MultiLockAnnotationValue, elements, no_multi_lock, is_expired,
  DaemonSetLock, DaemonSetMultiLock, node_ids_from_multi_lock,
}
use kured.DaemonSetLock.Api.{DaemonSet, Codec, get_annotation}
use kured.DaemonSetLock.Reply.{AcquireReply}
use kured.DaemonSetLock.Retry.{answer}
use kured.DaemonSetLock.Cluster.{Among}
use kured.DaemonSetLock.Multi.{
  can_acquire_multiple, remove_lock, find_holding, acquire_decide, acquire_possible,
  read_annotation,
}
use kured.DaemonSetLock.Multi.Decide.{locks, read-locks}
use kured.DaemonSetLock.Multi.Space.{own, has_room, can_acquire_multiple_lem, Among-append_right}
use kured.DaemonSetLock.Multi.Removal.{remove_lock-Removed, remove_lock-append, find_holding-none}

remove_lock-append_found :
    (node : Text) (l r ys : List LockAnnotationValue)
    → remove_lock node l ≡ some r
    → remove_lock node (l ++ ys) ≡ some (r ++ ys)
unfolding remove_lock
remove_lock-append_found node [] r ys e = cc
remove_lock-append_found node (v ∷ l) r ys e = elim (Option-cases (remove_lock node l)) [
  | inl none' ↦ ground arith
  | inr (k, found) ↦ ground (arith, remove_lock-append_found node l k ys found)
]

no_lock_of :
    (node : Text) (v : LockAnnotationValue) (l : List LockAnnotationValue)
    → All (λ (w : LockAnnotationValue). w.node_id ≢ node) l
    → Among v l
    → v.node_id ≡ node
    → ⊥
no_lock_of node v [] others h its = h
no_lock_of node v (w ∷ l) others (inl e) its =
    others.0 (ap (λ (u : LockAnnotationValue). u.node_id) (sym e) ∙ its)
no_lock_of node v (w ∷ l) others (inr h) its = no_lock_of node v l others.1 h its

module _ (dsl : DaemonSetLock) (metadata : NodeMeta) (ttl max_owners : ℤ) (now : ℕ) where
  abbrev acquired_locks : MultiLockAnnotationValue → List LockAnnotationValue
  acquired_locks a = elements (can_acquire_multiple dsl a metadata ttl max_owners now).1.locks

  pub remove_lock-can_acquire :
      (a : MultiLockAnnotationValue)
      → has_room dsl metadata ttl max_owners now a ≡ true
      → All (λ (w : LockAnnotationValue). w.node_id ≢ dsl.node_id) (elements a.locks)
      → remove_lock dsl.node_id (acquired_locks a) ≡ some (elements a.locks)
  remove_lock-can_acquire a room others =
      let (r, _, _) = can_acquire_multiple_lem dsl metadata ttl max_owners now a in
      rw (r room) (remove_lock-append dsl.node_id (elements a.locks) _ refl others)

  -- With room and an old lock of the node in the list, expired or not, `Acquire` adds a second one,
  -- and `Release` then takes away the old one: `Holding` still finds a lock of the node at
  -- every time at which the new one has not expired.
  pub find_holding-remove_lock :
      (a : MultiLockAnnotationValue) (old : LockAnnotationValue) (later : ℕ)
      → has_room dsl metadata ttl max_owners now a ≡ true
      → Among old (elements a.locks)
      → old.node_id ≡ dsl.node_id
      → is_expired later (own dsl metadata ttl max_owners now) ≡ false
      → (rest : List LockAnnotationValue) × (remove_lock dsl.node_id (acquired_locks a) ≡ some rest)
        × (find_holding dsl.node_id later rest ≢ none)
  find_holding-remove_lock a old later room among its live =
      let (r, _, _) = can_acquire_multiple_lem dsl metadata ttl max_owners now a in
      let new = own dsl metadata ttl max_owners now in
      elim (remove_lock-Removed dsl.node_id (elements a.locks)) [
        | inl (_, others) ↦ absurd (no_lock_of dsl.node_id old (elements a.locks) others among its)
        | inr (rest, found, _) ↦ (
          rest ++ new ∷ [],
          rw (r room)
              (remove_lock-append_found dsl.node_id (elements a.locks) rest (new ∷ []) found),
          λ gone.
              let expired =
                find_holding-none dsl.node_id later (rest ++ new ∷ []) new gone
                  (Among-append_right new rest (new ∷ []) (inl refl)) refl in
              cc,
        )
      ]

module _ (codec : Codec MultiLockAnnotationValue) (dsl : DaemonSetMultiLock) where
  refused-no_multi_lock :
      (meta : NodeMeta) (now m : ℕ) (a : MultiLockAnnotationValue)
      → dsl.max_owners ≡ pos (suc m)
      → (can_acquire_multiple dsl.lock a meta dsl.ttl dsl.max_owners now).0 ≡ false
      → ((can_acquire_multiple dsl.lock a meta dsl.ttl dsl.max_owners now).1 ≡ no_multi_lock)
        × (elements a.locks ≢ [])
  unfolding can_acquire_multiple
  refused-no_multi_lock meta now m a max e = (ground arith, λ empty. ground arith)

  acquire_possible-unnamed :
      (ds : DaemonSet) (p : Bool × MultiLockAnnotationValue) (r : AcquireReply)
      → acquire_possible codec dsl ds p ≡ answer r
      → r.error ≡ none
      → (p.0 ≡ false) × (r.acquired ≡ false) × (p.1 ≡ no_multi_lock → r.holder ≡ [])
  unfolding node_ids_from_multi_lock
  acquire_possible-unnamed ds (false, new) r e ok = ground arith
  acquire_possible-unnamed ds (true, new) r e ok = absurd (ground arith)

  -- With at least one owner allowed, an `Acquire` that returns without a write and without an error
  -- has been refused, and returns no holder's name, though the DaemonSet that it has read holds locks.
  pub acquire_decide-unnamed :
      (meta : NodeMeta) (now m : ℕ) (ds : DaemonSet) (r : AcquireReply)
      → dsl.max_owners ≡ pos (suc m)
      → acquire_decide codec dsl meta now ds ≡ answer r
      → r.error ≡ none
      → (r.acquired ≡ false) × (r.holder ≡ []) × (locks codec dsl ds ≢ [])
  unfolding acquire_decide
  acquire_decide-unnamed meta now m ds r max e ok =
      elim (Option-cases
        (read_annotation codec dsl (get_annotation dsl.annotation ds.annotations))) [
          | inl bad ↦ absurd (ground arith)
          | inr (a, read) ↦
              let (full, refused, unnamed) =
                acquire_possible-unnamed ds
                  (can_acquire_multiple dsl.lock a meta dsl.ttl dsl.max_owners now) r (ground arith)
                  ok in
              let (empty, held) = refused-no_multi_lock meta now m a max full in
              (refused, unnamed empty, rw (read-locks codec dsl _ a read) held)
        ]
