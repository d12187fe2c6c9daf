-- ===== src/DaemonSetLock/Multi/Runs.antt =====
-- Whole calls of `Acquire` and `Release` of the lock of several owners of
-- pkg/daemonsetlock/daemonsetlock.go, however many rounds they take.
use kured.Common.{
  ℕ, ◌≡◌, ◌≢◌, inl, inr, Bool, true, false, none, some, List, ◌∷◌, ◌++◌, arith, Option-cases,
}
use kured.DaemonSetLock.Value.{
  NodeMeta, LockAnnotationValue, MultiLockAnnotationValue, DaemonSetMultiLock,
}
use kured.DaemonSetLock.Api.{DaemonSet, ApiServer, Codec, get_annotation}
use kured.DaemonSetLock.Reply.{AcquireReply}
use kured.DaemonSetLock.Retry.{Turn, answer}
use kured.DaemonSetLock.Retry.Outcome.{
  IsTimeOf, Outcome, timeout, failure, answered, wrote, run-Outcome, Settles, run-returns,
}
use kured.DaemonSetLock.Cluster.{Among}
use kured.DaemonSetLock.Multi.{
  acquire, release, acquire_method, release_method, acquire_decide, read_annotation,
  acquire_possible, can_acquire_multiple,
}
use kured.DaemonSetLock.Multi.Decide.{
  entries, acquire_decide-own, acquire_decide-version, release_decide-Removed,
}
use kured.DaemonSetLock.Multi.Space.{own}

module _ (api : ApiServer) (codec : Codec MultiLockAnnotationValue) (dsl : DaemonSetMultiLock) where
  open api use {State, stored}

  -- The locks that the server stores.
  abbrev pub locks_in : State → List LockAnnotationValue
  locks_in s = entries codec (get_annotation dsl.annotation (stored s).annotations)

  -- `Acquire` returns true only after a write.
  possible-refused :
      (ds : DaemonSet) (r : AcquireReply) (p : Bool × MultiLockAnnotationValue)
      → acquire_possible codec dsl ds p ≡ answer r
      → r.acquired ≡ false
  possible-refused ds r (false, new) e = ground arith
  possible-refused ds r (true, new) e = ground arith

  pub decide-refused :
      (meta : NodeMeta) (now : ℕ) (ds : DaemonSet) (r : AcquireReply)
      → acquire_decide codec dsl meta now ds ≡ answer r
      → r.acquired ≡ false
  unfolding acquire_decide
  decide-refused meta now ds r e =
      elim (Option-cases
        (read_annotation codec dsl (get_annotation dsl.annotation ds.annotations))) [
          | inl bad ↦ ground arith
          | inr (a, read) ↦
              possible-refused ds r
                (can_acquire_multiple dsl.lock a meta dsl.ttl dsl.max_owners now) (ground arith)
        ]

  abbrev pub acquired_at : NodeMeta → ℕ → LockAnnotationValue
  acquired_at meta now = record {
    node_id = dsl.node_id;
    metadata = meta;
    created = now;
    ttl = dsl.ttl;
  }

  acquired-own :
      (meta : NodeMeta) (ts : List (Turn api)) (s : State) (r : AcquireReply)
      → Outcome api (acquire_method codec dsl meta) ts r s
      → r.acquired ≡ true
      → (now : ℕ) × IsTimeOf api now ts × Among (acquired_at meta now) (locks_in s)
  acquired-own meta ts s r (timeout e) a = absurd (ground arith)
  acquired-own meta ts s r (failure e) a = absurd (ground arith)
  acquired-own meta ts s r (answered now at e) a =
      let refused = decide-refused meta now (stored s) r e in absurd (cc)
  acquired-own meta ts s r (wrote now ds ds' before at e st) a =
      (now, at, rw st.taken (acquire_decide-own codec dsl meta now ds ds' r e))

  -- When `Acquire` of the lock of several owners returns true, the DaemonSet that is stored has a lock
  -- of the node that was created at the time of one of the call's rounds, with its name, its metadata
  -- and its TTL.
  pub acquire-own :
      (meta : NodeMeta) (ts : List (Turn api)) (s s' : State) (r : AcquireReply)
      → acquire api codec dsl meta ts s ≡ some (r, s')
      → r.acquired ≡ true
      → (now : ℕ) × IsTimeOf api now ts × Among (acquired_at meta now) (locks_in s')
  unfolding acquire
  acquire-own meta ts s s' r e =
      acquired-own meta ts s' r (run-Outcome api (acquire_method codec dsl meta) ts s s' r e)

  -- `Acquire` of the lock of several owners returns, at the latest in a round in which nothing writes
  -- between its read and its write.
  pub acquire-Settles :
      (meta : NodeMeta) (ts : List (Turn api)) (t : Turn api) (rest : List (Turn api)) (s : State)
      → Settles api t
      → acquire api codec dsl meta (ts ++ t ∷ rest) s ≢ none
  unfolding acquire
  acquire-Settles meta ts t rest s =
      run-returns api (acquire_method codec dsl meta) ts t rest s
        (acquire_decide-version codec dsl meta)

  -- `Release` of the lock of several owners returns, at the latest in a round in which nothing writes
  -- between its read and its write.
  pub release-Settles :
      (ts : List (Turn api)) (t : Turn api) (rest : List (Turn api)) (s : State)
      → Settles api t
      → release api codec dsl (ts ++ t ∷ rest) s ≢ none
  unfolding release
  release-Settles ts t rest s =
      run-returns api (release_method codec dsl) ts t rest s
        (λ now ds ds' r e. (release_decide-Removed codec dsl now ds ds' r e).1)
