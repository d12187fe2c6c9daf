-- ===== src/DaemonSetLock/Examples.antt =====
-- The theorems about the lock of pkg/daemonsetlock/daemonsetlock.go at concrete inputs.
pub mod Server
pub mod MultiCodec
mod Multi
mod Runs
use kured.DaemonSetLock.Examples.Server.{
  in_memory_updated, in_memory_conflict, in_memory_failed, in_memory_get, server, flag, encode_ttl,
  encode_value, decode_ttl, decode_value, value_codec, kube_system, ds_name, node_lock_annotation,
  one_minute, lock_of, node_a, node_b, schedulable, fleet, in_memory,
}
use kured.Common.{
  ℕ, zero, suc, ◌+◌, ◌-◌, ◌≤◌, ◌<◌, ◌≡◌, ◌≢◌, refl, ap, ◌∙◌, ◌⊎◌, inl, inr, Bool, true, false, not,
  Option, none, some, List, [], ◌∷◌, ◌++◌, Text, codes, text_eq, text_eq_iff, lookup, insert,
  delete, ℤ, pos, negsuc, arith, ◌==◌, ==_iff, if◌then◌else◌,
}
use kured.DaemonSetLock.Value.{
  NodeMeta, LockAnnotationValue, ttl_expired, is_expired, GenericLock, DaemonSetLock,
  DaemonSetSingleLock,
}
use kured.DaemonSetLock.Api.{
  DaemonSet, UpdateReply, updated, conflict, failed, ApiServer, Codec, Stores,
}
use kured.DaemonSetLock.Reply.{AcquireReply}
use kured.DaemonSetLock.Retry.{Turn, run, get_daemon_set}
use kured.DaemonSetLock.Retry.Outcome.{Settles}
use kured.DaemonSetLock.Single.{acquire_decide, release_decide, acquire, release}
use kured.DaemonSetLock.Single.Decide.{held}
use kured.DaemonSetLock.Single.Nodes.{nodes, node_lock}
use kured.DaemonSetLock.Single.Exclusion.{mutual_exclusion}
use kured.DaemonSetLock.Single.Runs.{acquire-held, release-clear, acquire-returns, release-returns}
use kured.DaemonSetLock.Cluster.{
  Discipline, Pc, idle, owner, System, Step, acquire_read, acquire_write, Reach, start, later,
}

-- Both nodes read a DaemonSet with no annotations, and both write: the second write conflicts.
abbrev pub free : DaemonSet
free = record { version = 7; annotations = none }

record Contended : Type 0 where
  last : System server fleet
  reach : Reach server fleet last

contended : Contended
unfolding acquire_decide text_eq lookup insert
contended = record {
  last = _;
  reach =
      later
        (later
          (later
            (later (start free 1000 (omega arith)) (acquire_read node_a schedulable refl refl refl))
            (acquire_read node_b schedulable refl refl refl))
          (acquire_write node_a refl))
        (acquire_write node_b refl);
}

abbrev lease_a : LockAnnotationValue
lease_a = record { node_id = node_a; metadata = schedulable; created = 1000; ttl = pos 60 }

contended_pcs : (contended.last.pc node_a ≡ owner lease_a) × (contended.last.pc node_b ≡ idle)
unfolding contended text_eq
contended_pcs = (refl, refl)

mutual_exclusion_example :
    (node_a ≡ node_a)
    × (held value_codec node_lock_annotation contended.last.server.annotations ≡ some lease_a)
    × (lease_a ≡ lease_a)
unfolding contended ttl_expired
mutual_exclusion_example =
    mutual_exclusion value_codec (λ i. one_minute) kube_system ds_name node_lock_annotation server
      contended.last node_a node_a lease_a lease_a contended.reach contended_pcs.0 contended_pcs.0
      (omega arith) (omega arith)

-- One round in which nobody else writes.
abbrev pub quiet : Turn server
quiet = record { attempts = (λ s. s) ∷ []; between = λ s. s; now = 1000 }

pub quiet-Settles : Settles server quiet
unfolding get_daemon_set
quiet-Settles s s' ds ds' e version conflict' =
    let same : s ≡ s' = cc in let read : ds ≡ s = cc in ground arith

record Acquired : Type 0 where
  last : DaemonSet
  reply : AcquireReply
  returned :
      acquire server value_codec (lock_of node_a) schedulable (quiet ∷ []) free ≡ some (reply, last)
  acquired : reply.acquired ≡ true

acquired_by_a : Acquired
unfolding acquire acquire_decide run get_daemon_set text_eq lookup insert
acquired_by_a = record { last = _; reply = _; returned = refl; acquired = refl }

acquire-held_example :
    (v : LockAnnotationValue) × (held value_codec node_lock_annotation
        acquired_by_a.last.annotations
      ≡ some v)
    × (v.node_id ≡ node_a)
acquire-held_example =
    acquire-held server value_codec (lock_of node_a) schedulable (quiet ∷ []) free
      acquired_by_a.last acquired_by_a.reply acquired_by_a.returned acquired_by_a.acquired

record Released : Type 0 where
  last : DaemonSet
  returned :
      release server value_codec (lock_of node_a) (quiet ∷ []) acquired_by_a.last
      ≡ some (none, last)

released_by_a : Released
unfolding acquired_by_a release release_decide run get_daemon_set text_eq lookup delete
released_by_a = record { last = _; returned = refl }

release-clear_example : held value_codec node_lock_annotation released_by_a.last.annotations ≡ none
release-clear_example =
    release-clear server value_codec (lock_of node_a) (quiet ∷ []) acquired_by_a.last
      released_by_a.last released_by_a.returned

acquire-returns_example :
    acquire server value_codec (lock_of node_a) schedulable (quiet ∷ []) free ≢ none
acquire-returns_example =
    acquire-returns server value_codec (lock_of node_a) schedulable [] quiet [] free quiet-Settles

release-returns_example :
    release server value_codec (lock_of node_a) (quiet ∷ []) acquired_by_a.last ≢ none
release-returns_example =
    release-returns server value_codec (lock_of node_a) [] quiet [] acquired_by_a.last quiet-Settles
