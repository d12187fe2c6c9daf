-- ===== src/DaemonSetLock/Examples/Runs.antt =====
-- Whole calls of the lock of several owners of pkg/daemonsetlock/daemonsetlock.go at concrete inputs.
use kured.Common.{ℕ, ◌≡◌, ◌≢◌, refl, true, none, some, [], ◌∷◌, text_eq, lookup, insert, pos}
use kured.DaemonSetLock.Api.{DaemonSet}
use kured.DaemonSetLock.Reply.{AcquireReply}
use kured.DaemonSetLock.Retry.{run, get_daemon_set}
use kured.DaemonSetLock.Retry.Alone.{alone}
use kured.DaemonSetLock.Cluster.{Among}
use kured.DaemonSetLock.Multi.{
  acquire, release, acquire_decide, release_decide, can_acquire_multiple, remove_lock,
}
use kured.DaemonSetLock.Multi.Runs.{locks_in, acquired_at, acquire-own, acquire-Settles, release-Settles}
use kured.DaemonSetLock.Retry.Outcome.{IsTimeOf}
use kured.DaemonSetLock.Multi.Alone.{release-acquire}
use kured.DaemonSetLock.Examples.{quiet, quiet-Settles}
use kured.DaemonSetLock.Examples.Server.{server, node_a, node_b, schedulable, node_lock_annotation}
use kured.DaemonSetLock.Examples.Multi.{lease_of, a_ne_b}
use kured.DaemonSetLock.Examples.MultiCodec.{multi_codec, lock_of, encode_multi}

-- A DaemonSet with the lock of node a.
abbrev held_by_a : DaemonSet
held_by_a = record {
  version = 9;
  annotations = some (
      (
        node_lock_annotation,
        encode_multi (record { max_owners = pos 2; locks = some (lease_of node_a ∷ []) }),
      )
      ∷ []);
}

record Acquired : Type 0 where
  last : DaemonSet
  reply : AcquireReply
  returned :
      acquire server multi_codec (lock_of node_b) schedulable (alone server 1000 ∷ []) held_by_a
      ≡ some (reply, last)
  acquired : reply.acquired ≡ true

acquired_by_b : Acquired
unfolding acquire acquire_decide run get_daemon_set text_eq lookup insert can_acquire_multiple
acquired_by_b = record { last = _; reply = _; returned = refl; acquired = refl }

record Released : Type 0 where
  last : DaemonSet
  returned :
      release server multi_codec (lock_of node_b) (alone server 2000 ∷ []) acquired_by_b.last
      ≡ some (none, last)

released_by_b : Released
unfolding acquired_by_b release release_decide run get_daemon_set text_eq lookup insert remove_lock
released_by_b = record { last = _; returned = refl }

acquire-own_example :
    (now : ℕ) × IsTimeOf server now (alone server 1000 ∷ []) × Among
      (acquired_at server multi_codec (lock_of node_b) schedulable now)
      (locks_in server multi_codec (lock_of node_b) acquired_by_b.last)
acquire-own_example =
    acquire-own server multi_codec (lock_of node_b) schedulable (alone server 1000 ∷ []) held_by_a
      acquired_by_b.last acquired_by_b.reply acquired_by_b.returned acquired_by_b.acquired

acquire-Settles_example :
    acquire server multi_codec (lock_of node_b) schedulable (quiet ∷ []) held_by_a ≢ none
acquire-Settles_example =
    acquire-Settles server multi_codec (lock_of node_b) schedulable [] quiet [] held_by_a
      quiet-Settles

release-Settles_example :
    release server multi_codec (lock_of node_b) (quiet ∷ []) acquired_by_b.last ≢ none
release-Settles_example =
    release-Settles server multi_codec (lock_of node_b) [] quiet [] acquired_by_b.last quiet-Settles

release-acquire_example :
    locks_in server multi_codec (lock_of node_b) released_by_b.last
    ≡ locks_in server multi_codec (lock_of node_b) held_by_a
unfolding lookup text_eq
release-acquire_example =
    release-acquire server multi_codec (lock_of node_b) schedulable 1000 2000 held_by_a
      acquired_by_b.last released_by_b.last acquired_by_b.reply acquired_by_b.returned
      acquired_by_b.acquired released_by_b.returned refl (a_ne_b, tt)
