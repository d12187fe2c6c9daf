-- ===== src/DaemonSetLock/Single/Runs.antt =====
-- Whole calls of `Acquire`, `Holding` and `Release` of the single lock of
-- pkg/daemonsetlock/daemonsetlock.go, however many rounds they take.
use kured.Common.{◌≡◌, ◌≢◌, refl, true, Option, none, some, List, ◌∷◌, ◌++◌, arith}
use kured.DaemonSetLock.Value.{NodeMeta, LockAnnotationValue, DaemonSetSingleLock}
use kured.DaemonSetLock.Api.{ApiServer, Codec}
use kured.DaemonSetLock.Reply.{AcquireReply}
use kured.DaemonSetLock.Retry.{Turn}
use kured.DaemonSetLock.Retry.Outcome.{
  Outcome, timeout, failure, answered, wrote, run-Outcome, Settles, run-returns,
}
use kured.DaemonSetLock.Single.{
  new_value, acquire, release, acquire_method, release_method, release_decide,
}
use kured.DaemonSetLock.Single.Decide.{
  held, acquire_decide-write, acquire_decide-answer, release_decide-write,
}

module _ (api : ApiServer) (codec : Codec LockAnnotationValue) (dsl : DaemonSetSingleLock) where
  open api use {State, stored}

  abbrev held_in : State → Option LockAnnotationValue
  held_in s = held codec dsl.annotation (stored s).annotations

  acquired-held :
      (meta : NodeMeta) (ts : List (Turn api)) (s : State) (r : AcquireReply)
      → Outcome api (acquire_method codec dsl meta) ts r s
      → r.acquired ≡ true
      → (v : LockAnnotationValue) × (held_in s ≡ some v) × (v.node_id ≡ dsl.node_id)
  acquired-held meta ts s r (timeout e) a = absurd (ground arith)
  acquired-held meta ts s r (failure e) a = absurd (ground arith)
  acquired-held meta ts s r (answered now at e) a =
      let (v, h, own, live) = acquire_decide-answer codec dsl meta now (stored s) r e a in
      (v, h, own)
  acquired-held meta ts s r (wrote now ds ds' before at e st) a =
      let (version, value, free) = acquire_decide-write codec dsl meta now ds ds' r e in
      (new_value codec dsl meta now, rw st.taken value, refl)

  -- When `Acquire` of the single lock returns true, the DaemonSet that is stored holds a lock of the node.
  pub acquire-held :
      (meta : NodeMeta) (ts : List (Turn api)) (s s' : State) (r : AcquireReply)
      → acquire api codec dsl meta ts s ≡ some (r, s')
      → r.acquired ≡ true
      → (v : LockAnnotationValue) × (held_in s' ≡ some v) × (v.node_id ≡ dsl.node_id)
  unfolding acquire
  acquire-held meta ts s s' r e =
      acquired-held meta ts s' r (run-Outcome api (acquire_method codec dsl meta) ts s s' r e)

  released-clear :
      (ts : List (Turn api)) (s : State)
      → Outcome api (release_method codec dsl) ts none s
      → held_in s ≡ none
  unfolding release_decide
  released-clear ts s (timeout e) = absurd (cc)
  released-clear ts s (failure e) = absurd (cc)
  released-clear ts s (answered now at e) = absurd (ground arith)
  released-clear ts s (wrote now ds ds' before at e st) =
      let (version, gone, own) = release_decide-write codec dsl now ds ds' none e in
      rw st.taken gone

  -- When `Release` of the single lock returns no error, the DaemonSet that is stored holds no lock.
  pub release-clear :
      (ts : List (Turn api)) (s s' : State)
      → release api codec dsl ts s ≡ some (none, s')
      → held_in s' ≡ none
  unfolding release
  release-clear ts s s' e =
      released-clear ts s' (run-Outcome api (release_method codec dsl) ts s s' none e)

  -- `Acquire` of the single lock returns, at the latest in a round in which nothing writes between its read and its
  -- write.
  pub acquire-returns :
      (meta : NodeMeta) (ts : List (Turn api)) (t : Turn api) (rest : List (Turn api)) (s : State)
      → Settles api t
      → acquire api codec dsl meta (ts ++ t ∷ rest) s ≢ none
  unfolding acquire
  acquire-returns meta ts t rest s =
      run-returns api (acquire_method codec dsl meta) ts t rest s
        (λ now ds ds' r e. (acquire_decide-write codec dsl meta now ds ds' r e).0)

  -- `Release` of the single lock returns, at the latest in a round in which nothing writes between its read and its
  -- write.
  pub release-returns :
      (ts : List (Turn api)) (t : Turn api) (rest : List (Turn api)) (s : State)
      → Settles api t
      → release api codec dsl (ts ++ t ∷ rest) s ≢ none
  unfolding release
  release-returns ts t rest s =
      run-returns api (release_method codec dsl) ts t rest s
        (λ now ds ds' r e. (release_decide-write codec dsl now ds ds' r e).0)
