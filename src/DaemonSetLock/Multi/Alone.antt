-- ===== src/DaemonSetLock/Multi/Alone.antt =====
-- `Acquire` and then `Release` of the lock of several owners of pkg/daemonsetlock/daemonsetlock.go, in
-- rounds in which no other client writes.
use kured.Common.{
  ℕ, ◌≡◌, ◌≢◌, inl, inr, subst, true, Option, none, some, List, [], ◌∷◌, Text, All, arith, ℤ,
  Option-cases, length, less_than_int,
}
use kured.DaemonSetLock.Value.{
  NodeMeta, LockAnnotationValue, MultiLockAnnotationValue, DaemonSetMultiLock, elements,
}
use kured.DaemonSetLock.Api.{DaemonSet, ApiServer, Codec, get_annotation}
use kured.DaemonSetLock.Reply.{AcquireReply}
use kured.DaemonSetLock.Retry.{answer}
use kured.DaemonSetLock.Retry.Alone.{alone, Solo, timeout, failure, answered, wrote, run-Solo}
use kured.DaemonSetLock.Multi.{
  acquire, release, acquire_method, release_method, release_decide, release_modified, remove_lock,
  store_released, can_acquire_multiple,
}
use kured.DaemonSetLock.Multi.Decide.{claim, acquire_decide-Claim, release_decide-Removed}
use kured.DaemonSetLock.Multi.Runs.{locks_in, decide-refused}
use kured.DaemonSetLock.Multi.Space.{has_room}
use kured.DaemonSetLock.Multi.Reentry.{remove_lock-can_acquire}

module _ (api : ApiServer) (codec : Codec MultiLockAnnotationValue) (dsl : DaemonSetMultiLock) where
  open api use {State, stored}

  -- `Release` never answers nil without a write.
  stored-error : (ds : DaemonSet) (o : Option Text) → store_released codec dsl ds o ≢ answer none
  stored-error ds none e = ground arith
  stored-error ds (some text) e = ground arith

  modified-error :
      (ds : DaemonSet) (max : ℤ) (o : Option (List LockAnnotationValue))
      → release_modified codec dsl ds max o ≢ answer none
  modified-error ds max none e = ground arith
  modified-error ds max (some l) e = stored-error ds _ e

  decide-error : (now : ℕ) (ds : DaemonSet) → release_decide codec dsl now ds ≢ answer none
  unfolding release_decide
  decide-error now ds e = elim (Option-cases (get_annotation dsl.annotation ds.annotations)) [
    | inl missing ↦ ground arith
    | inr (text, found) ↦ elim (Option-cases (codec.unmarshal text)) [
      | inl bad ↦ ground arith
      | inr (a, read) ↦
          modified-error ds a.max_owners (remove_lock dsl.node_id (elements a.locks)) (ground arith)
    ]
  ]

  released-alone :
      (now : ℕ) (s s' : State)
      → Solo api (release_method codec dsl) now none s s'
      → remove_lock dsl.node_id (locks_in api codec dsl s) ≡ some (locks_in api codec dsl s')
  released-alone now s s' (timeout e) = absurd (cc)
  released-alone now s s' (failure e) = absurd (cc)
  released-alone now s s' (answered e same) = absurd (decide-error now (stored s) e)
  released-alone now s s' (wrote ds' e st) =
      rw st.taken (release_decide-Removed codec dsl now (stored s) ds' none e).0

  abbrev Added : (meta : NodeMeta) (now : ℕ) (s s' : State) → Type 0
  Added meta now s s' =
      (a : MultiLockAnnotationValue) × (locks_in api codec dsl s ≡ elements a.locks)
      × (locks_in api codec dsl s'
          ≡ elements (can_acquire_multiple dsl.lock a meta dsl.ttl dsl.max_owners now).1.locks)

  acquired-alone :
      (meta : NodeMeta) (now : ℕ) (s s' : State) (r : AcquireReply)
      → Solo api (acquire_method codec dsl meta) now r s s'
      → r.acquired ≡ true
      → Added meta now s s'
  acquired-alone meta now s s' r (timeout e) t = absurd (ground arith)
  acquired-alone meta now s s' r (failure e) t = absurd (ground arith)
  acquired-alone meta now s s' r (answered e same) t =
      let refused = decide-refused api codec dsl meta now (stored s) r e in absurd (cc)
  acquired-alone meta now s s' r (wrote ds' e st) t =
      elim (acquire_decide-Claim codec dsl meta now (stored s) ds' r e) [
        | claim a before possible after version ↦ (a, before, rw st.taken after)
      ]

  -- An `Acquire` that returns true, and then a `Release` without an error, both in a round in which no
  -- other client writes, leave the locks that were there before, in their order, where there were
  -- fewer than owners and none of them was the node's.
  pub release-acquire :
      (meta : NodeMeta) (now later : ℕ) (s s1 s2 : State) (r : AcquireReply)
      → acquire api codec dsl meta (alone api now ∷ []) s ≡ some (r, s1)
      → r.acquired ≡ true
      → release api codec dsl (alone api later ∷ []) s1 ≡ some (none, s2)
      → less_than_int (length (locks_in api codec dsl s)) dsl.max_owners ≡ true
      → All (λ (w : LockAnnotationValue). w.node_id ≢ dsl.node_id) (locks_in api codec dsl s)
      → locks_in api codec dsl s2 ≡ locks_in api codec dsl s
  unfolding acquire release
  release-acquire meta now later s s1 s2 r got taken gave few others =
      let (a, before, after) =
        acquired-alone meta now s s1 r (run-Solo api (acquire_method codec dsl meta) now r s s1 got)
          taken in
      let gone =
        released-alone later s1 s2
          (run-Solo api (release_method codec dsl) later none s1 s2 gave) in
      let room : has_room dsl.lock meta dsl.ttl dsl.max_owners now a ≡ true = ground arith in
      let back =
        remove_lock-can_acquire dsl.lock meta dsl.ttl dsl.max_owners now a room
          (subst (All (λ (w : LockAnnotationValue). w.node_id ≢ dsl.node_id)) before others) in
      ground arith
