-- ===== src/DaemonSetLock/Multi/Decide.antt =====
-- What the decisions of the lock of several owners of pkg/daemonsetlock/daemonsetlock.go write and
-- answer, in terms of the list of locks.
use kured.Common.{
  ℕ, suc, ◌≤◌, ◌≡◌, ◌⊎◌, inl, inr, refl, sym, ap, subst, Bool, true, false, Option, none, some,
  List, [], Text, length, ℤ, pos, arith, Option-cases,
}
use kured.DaemonSetLock.Value.{
  NodeMeta, LockAnnotationValue, MultiLockAnnotationValue, elements, is_expired, DaemonSetMultiLock,
}
use kured.DaemonSetLock.Api.{DaemonSet, get_annotation, Codec}
use kured.DaemonSetLock.Reply.{AcquireReply, LockError}
use kured.DaemonSetLock.Retry.{write}
use kured.DaemonSetLock.Single.Decide.{get_annotation-set}
use kured.DaemonSetLock.Multi.{
  can_acquire_multiple, find_holding, remove_lock, acquire_decide, acquire_possible, store_acquired,
  holding_found, holding_value, holding_annotation, holding_daemon_set, release_decide,
  release_modified, store_released, read_annotation,
}
use kured.DaemonSetLock.Multi.Space.{
  own, can_acquire_multiple-length, can_acquire_multiple-own, can_acquire_multiple-keeps,
}
use kured.DaemonSetLock.Multi.Removal.{Removed, remove_lock-Removed, find_holding-Among}
use kured.DaemonSetLock.Cluster.{Among}

module _ (codec : Codec MultiLockAnnotationValue) where
  open codec use {unmarshal}

  abbrev pub decoded : Option MultiLockAnnotationValue → List LockAnnotationValue
  decoded none = []
  decoded (some a) = elements a.locks

  abbrev pub entries : Option Text → List LockAnnotationValue
  entries none = []
  entries (some text) = decoded (unmarshal text)

module _ (codec : Codec MultiLockAnnotationValue) (dsl : DaemonSetMultiLock) where
  open codec use {marshal, unmarshal, unmarshal-marshal}

  abbrev pub locks : DaemonSet → List LockAnnotationValue
  locks ds = entries codec (get_annotation dsl.annotation ds.annotations)

  -- A write by `Acquire`, taken apart.
  pub data Claim (meta : NodeMeta) (now : ℕ) (ds ds' : DaemonSet) : Type 0 where
    claim :
        (a : MultiLockAnnotationValue)
        → locks ds ≡ elements a.locks
        → (can_acquire_multiple dsl.lock a meta dsl.ttl dsl.max_owners now).0 ≡ true
        → locks ds'
          ≡ elements (can_acquire_multiple dsl.lock a meta dsl.ttl dsl.max_owners now).1.locks
        → ds'.version ≡ ds.version
        → Claim meta now ds ds'

  pub read-locks :
      (text : Option Text) (a : MultiLockAnnotationValue)
      → read_annotation codec dsl text ≡ some a
      → entries codec text ≡ elements a.locks
  read-locks none a e = ground arith
  read-locks (some text) a e = ground arith

  store_acquired-write :
      (ds ds' : DaemonSet) (new : MultiLockAnnotationValue) (r : AcquireReply) (o : Option Text)
      → marshal new ≡ o
      → store_acquired codec dsl ds new o ≡ write ds' r
      → (locks ds' ≡ elements new.locks) × (ds'.version ≡ ds.version)
  store_acquired-write ds ds' new r none m e = cc
  store_acquired-write ds ds' new r (some text) m e =
      ground
        (arith, get_annotation-set dsl.annotation text ds.annotations, unmarshal-marshal new text m)

  acquire_possible-write :
      (ds ds' : DaemonSet) (r : AcquireReply) (p : Bool × MultiLockAnnotationValue)
      → acquire_possible codec dsl ds p ≡ write ds' r
      → (p.0 ≡ true) × (locks ds' ≡ elements p.1.locks) × (ds'.version ≡ ds.version)
  acquire_possible-write ds ds' r (false, new) e = cc
  acquire_possible-write ds ds' r (true, new) e =
      let (stored, version) = store_acquired-write ds ds' new r (marshal new) refl e in
      (refl, stored, version)

  pub acquire_decide-Claim :
      (meta : NodeMeta) (now : ℕ) (ds ds' : DaemonSet) (r : AcquireReply)
      → acquire_decide codec dsl meta now ds ≡ write ds' r
      → Claim meta now ds ds'
  unfolding acquire_decide
  acquire_decide-Claim meta now ds ds' r e =
      elim (Option-cases
        (read_annotation codec dsl (get_annotation dsl.annotation ds.annotations))) [
          | inl bad ↦ absurd (ground arith)
          | inr (a, read) ↦
              let (acquired, stored, version) =
                acquire_possible-write ds ds' r
                  (can_acquire_multiple dsl.lock a meta dsl.ttl dsl.max_owners now)
                  (ground arith) in
              claim a (read-locks _ a read) acquired stored version
        ]

  store_released-write :
      (ds ds' : DaemonSet) (new : MultiLockAnnotationValue) (r : Option LockError) (o : Option Text)
      → marshal new ≡ o
      → store_released codec dsl ds o ≡ write ds' r
      → (locks ds' ≡ elements new.locks) × (ds'.version ≡ ds.version)
  store_released-write ds ds' new r none m e = cc
  store_released-write ds ds' new r (some text) m e =
      ground
        (arith, get_annotation-set dsl.annotation text ds.annotations, unmarshal-marshal new text m)

  release_modified-write :
      (ds ds' : DaemonSet) (max_owners : ℤ) (r : Option LockError)
      (o : Option (List LockAnnotationValue))
      → release_modified codec dsl ds max_owners o ≡ write ds' r
      → (o ≡ some (locks ds')) × (ds'.version ≡ ds.version)
  release_modified-write ds ds' max_owners r none e = cc
  release_modified-write ds ds' max_owners r (some rest) e =
      let (stored, version) = store_released-write ds ds' _ r _ refl e in
      (ap some (sym stored), version)

  -- A write by `Release` leaves out the node's first lock.
  pub release_decide-Removed :
      (now : ℕ) (ds ds' : DaemonSet) (r : Option LockError)
      → release_decide codec dsl now ds ≡ write ds' r
      → (remove_lock dsl.node_id (locks ds) ≡ some (locks ds')) × (ds'.version ≡ ds.version)
  unfolding release_decide
  release_decide-Removed now ds ds' r e =
      elim (Option-cases (get_annotation dsl.annotation ds.annotations)) [
        | inl missing ↦ absurd (ground arith)
        | inr (text, found) ↦ elim (Option-cases (unmarshal text)) [
          | inl bad ↦ absurd (ground arith)
          | inr (a, read) ↦
              rw (found, read)
                (release_modified-write ds ds' a.max_owners r
                  (remove_lock dsl.node_id (elements a.locks)) (ground arith))
        ]
      ]

  pub acquire_decide-keeps :
      (meta : NodeMeta) (now : ℕ) (ds ds' : DaemonSet) (r : AcquireReply)
      → acquire_decide codec dsl meta now ds ≡ write ds' r
      → (w : LockAnnotationValue) → Among w (locks ds)
      → Among w (locks ds') ⊎ (is_expired now w ≡ true)
  acquire_decide-keeps meta now ds ds' r e w h = elim (acquire_decide-Claim meta now ds ds' r e) [
    | claim a before acquired after version ↦ rw after (
        can_acquire_multiple-keeps dsl.lock meta dsl.ttl dsl.max_owners now a acquired w
          (subst (Among w) before h))
  ]

  pub acquire_decide-own :
      (meta : NodeMeta) (now : ℕ) (ds ds' : DaemonSet) (r : AcquireReply)
      → acquire_decide codec dsl meta now ds ≡ write ds' r
      → Among (own dsl.lock meta dsl.ttl dsl.max_owners now) (locks ds')
  acquire_decide-own meta now ds ds' r e = elim (acquire_decide-Claim meta now ds ds' r e) [
    | claim a before acquired after version ↦
        subst (Among _) (sym after)
          (can_acquire_multiple-own dsl.lock meta dsl.ttl dsl.max_owners now a acquired)
  ]

  pub acquire_decide-length :
      (m : ℕ)
      → dsl.max_owners ≡ pos (suc m)
      → (meta : NodeMeta) (now : ℕ) (ds ds' : DaemonSet) (r : AcquireReply)
      → acquire_decide codec dsl meta now ds ≡ write ds' r
      → length (locks ds) ≤ suc m
      → length (locks ds') ≤ suc m
  acquire_decide-length m max meta now ds ds' r e few =
      elim (acquire_decide-Claim meta now ds ds' r e) [
        | claim a before acquired after version ↦ omega (
          arith,
          ap length after,
          can_acquire_multiple-length dsl.lock meta dsl.ttl dsl.max_owners now a m max acquired
              (omega (arith, ap length before)),
        )
      ]

  pub acquire_decide-version :
      (meta : NodeMeta) (now : ℕ) (ds ds' : DaemonSet) (r : AcquireReply)
      → acquire_decide codec dsl meta now ds ≡ write ds' r
      → ds'.version ≡ ds.version
  acquire_decide-version meta now ds ds' r e = elim (acquire_decide-Claim meta now ds ds' r e) [
    | claim a before acquired after version ↦ version
  ]

  -- What a `Release` that writes has removed.
  pub release_Removed :
      (now : ℕ) (ds ds' : DaemonSet) (r : Option LockError)
      → release_decide codec dsl now ds ≡ write ds' r
      → Removed dsl.node_id (locks ds) (locks ds')
  release_Removed now ds ds' r e = elim (remove_lock-Removed dsl.node_id (locks ds)) [
    | inl (none', others) ↦ let gone = (release_decide-Removed now ds ds' r e).0 in absurd (cc)
    | inr (l, found, removed) ↦
        let gone = (release_decide-Removed now ds ds' r e).0 in
        let same : l ≡ locks ds' = cc in subst (Removed dsl.node_id (locks ds)) same removed
  ]

  holding_found-Among :
      (now : ℕ) (l : List LockAnnotationValue) (o : Option LockAnnotationValue)
      → find_holding dsl.node_id now l ≡ o
      → (holding_found codec dsl o).holding ≡ true
      → Among (holding_found codec dsl o).data_ l
        × ((holding_found codec dsl o).data_.node_id ≡ dsl.node_id)
  holding_found-Among now l none e h = cc
  holding_found-Among now l (some v) e h =
      let (among, its, live) = find_holding-Among dsl.node_id now l v e in (among, its)

  holding_value-Among :
      (now : ℕ) (o : Option MultiLockAnnotationValue)
      → (holding_value codec dsl now o).holding ≡ true
      → Among (holding_value codec dsl now o).data_ (decoded codec o)
        × ((holding_value codec dsl now o).data_.node_id ≡ dsl.node_id)
  holding_value-Among now none h = cc
  holding_value-Among now (some a) h = holding_found-Among now (elements a.locks) _ refl h

  holding_annotation-Among :
      (now : ℕ) (o : Option Text)
      → (holding_annotation codec dsl now o).holding ≡ true
      → Among (holding_annotation codec dsl now o).data_ (entries codec o)
        × ((holding_annotation codec dsl now o).data_.node_id ≡ dsl.node_id)
  holding_annotation-Among now none h = cc
  holding_annotation-Among now (some text) h = holding_value-Among now (unmarshal text) h

  pub holding-Among :
      (now : ℕ) (ds : DaemonSet)
      → (holding_daemon_set codec dsl now (some ds)).holding ≡ true
      → Among (holding_daemon_set codec dsl now (some ds)).data_ (locks ds)
        × ((holding_daemon_set codec dsl now (some ds)).data_.node_id ≡ dsl.node_id)
  holding-Among now ds h = holding_annotation-Among now _ h
