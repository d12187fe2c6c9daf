-- ===== src/DaemonSetLock/Single.antt =====
-- pkg/daemonsetlock/daemonsetlock.go: the methods of `DaemonSetSingleLock`.
pub mod Decide
pub mod Nodes
pub mod Exclusion
pub mod Runs
use kured.Common.{
  ℕ, Bool, true, false, Option, none, some, List, [], ◌∷◌, Text, text_eq, if◌then◌else◌, not,
}
use kured.DaemonSetLock.Value.{
  NodeMeta, LockAnnotationValue, no_lock, ttl_expired, is_expired, DaemonSetSingleLock,
}
use kured.DaemonSetLock.Api.{
  DaemonSet, get_annotation, set_annotation, delete_annotation, ApiServer, Codec,
}
use kured.DaemonSetLock.Reply.{
  LockError, timed_out, bad_annotation, marshal_failed, update_failed, lock_not_held,
  not_lock_holder, AcquireReply, HoldingReply, not_acquired, not_holding,
}
use kured.DaemonSetLock.Retry.{Decision, answer, write, Method, Turn, get_daemon_set, run}

module _ (codec : Codec LockAnnotationValue) (dsl : DaemonSetSingleLock) where
  open codec use {marshal, unmarshal}

  abbrev pub new_value : NodeMeta → ℕ → LockAnnotationValue
  new_value meta now = record {
    node_id = dsl.node_id;
    metadata = meta;
    created = now;
    ttl = dsl.ttl;
  }

  abbrev pub store_value : DaemonSet → Option Text → Decision AcquireReply
  store_value ds none = answer (not_acquired marshal_failed)
  store_value ds (some text) =
      write (record ds { annotations = set_annotation dsl.annotation text ds.annotations })
        (record { acquired = true; holder = dsl.node_id; error = none })

  abbrev pub claim : NodeMeta → ℕ → DaemonSet → Decision AcquireReply
  claim meta now ds = store_value ds (marshal (new_value meta now))

  abbrev pub acquire_value :
      NodeMeta → ℕ → DaemonSet → Option LockAnnotationValue → Decision AcquireReply
  acquire_value meta now ds none = answer (not_acquired bad_annotation)
  acquire_value meta now ds (some v) =
      if not (is_expired now v)
      then answer
          (record { acquired = text_eq v.node_id dsl.node_id; holder = v.node_id; error = none })
      else claim meta now ds

  abbrev pub acquire_annotation : NodeMeta → ℕ → DaemonSet → Option Text → Decision AcquireReply
  acquire_annotation meta now ds none = claim meta now ds
  acquire_annotation meta now ds (some text) = acquire_value meta now ds (unmarshal text)

  unfoldable pub acquire_decide : NodeMeta → ℕ → DaemonSet → Decision AcquireReply
  acquire_decide meta now ds =
      acquire_annotation meta now ds (get_annotation dsl.annotation ds.annotations)

  abbrev pub holding_value : ℕ → Option LockAnnotationValue → HoldingReply
  holding_value now none = not_holding (some bad_annotation)
  holding_value now (some v) =
      if not (is_expired now v)
      then record { holding = text_eq v.node_id dsl.node_id; data_ = v; error = none }
      else not_holding none

  abbrev pub holding_annotation : ℕ → Option Text → HoldingReply
  holding_annotation now none = not_holding none
  holding_annotation now (some text) = holding_value now (unmarshal text)

  abbrev pub holding_daemon_set : ℕ → Option DaemonSet → HoldingReply
  holding_daemon_set now none = not_holding (some timed_out)
  holding_daemon_set now (some ds) =
      holding_annotation now (get_annotation dsl.annotation ds.annotations)

  -- `Release` returns an error or nil.
  abbrev pub release_value : DaemonSet → Option LockAnnotationValue → Decision (Option LockError)
  release_value ds none = answer (some bad_annotation)
  release_value ds (some v) =
      if not (text_eq v.node_id dsl.node_id)
      then answer (some (not_lock_holder v.node_id))
      else write (record ds { annotations = delete_annotation dsl.annotation ds.annotations }) none

  abbrev pub release_annotation : DaemonSet → Option Text → Decision (Option LockError)
  release_annotation ds none = answer (some lock_not_held)
  release_annotation ds (some text) = release_value ds (unmarshal text)

  unfoldable pub release_decide : ℕ → DaemonSet → Decision (Option LockError)
  release_decide now ds = release_annotation ds (get_annotation dsl.annotation ds.annotations)

  abbrev pub acquire_method : NodeMeta → Method AcquireReply
  acquire_method meta = record {
    decide = acquire_decide meta;
    on_timeout = not_acquired timed_out;
    on_failure = not_acquired update_failed;
  }

  abbrev pub release_method : Method (Option LockError)
  release_method = record {
    decide = release_decide;
    on_timeout = some timed_out;
    on_failure = some update_failed;
  }

module _ (api : ApiServer) (codec : Codec LockAnnotationValue) (dsl : DaemonSetSingleLock) where
  open api use {State}

  unfoldable pub acquire : NodeMeta → List (Turn api) → State → Option (AcquireReply × State)
  unfolding run acquire_decide
  acquire meta = run api (acquire_method codec dsl meta)

  unfoldable pub holding : Turn api → State → HoldingReply × State
  unfolding get_daemon_set
  holding t s =
      let (ds, s') = get_daemon_set api t.attempts s in (holding_daemon_set codec dsl t.now ds, s')

  -- The wait of `releaseDelay` before the first round is part of what others do in its first turn.
  unfoldable pub release : List (Turn api) → State → Option (Option LockError × State)
  unfolding run release_decide
  release = run api (release_method codec dsl)
