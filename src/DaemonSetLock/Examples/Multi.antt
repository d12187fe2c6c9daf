-- ===== src/DaemonSetLock/Examples/Multi.antt =====
-- The theorems about the lock of several owners of pkg/daemonsetlock/daemonsetlock.go at concrete
-- inputs.
use kured.Common.{
  ◌≤◌, ◌≡◌, ◌≢◌, refl, ◌⊎◌, inl, true, false, none, some, List, [], ◌∷◌, Text, codes, text_eq,
  text_eq_iff, lookup, insert, pos, arith, length, All,
}
use kured.DaemonSetLock.Value.{LockAnnotationValue, MultiLockAnnotationValue, elements, ttl_expired}
use kured.DaemonSetLock.Api.{DaemonSet, get_annotation}
use kured.DaemonSetLock.Reply.{AcquireReply}
use kured.DaemonSetLock.Retry.{answer}
use kured.DaemonSetLock.Cluster.{
  owner, System, Step, Among, acquire_read, acquire_write, Reach, start, later,
}
use kured.DaemonSetLock.Multi.{
  acquire_decide, can_acquire_multiple, remove_lock, find_holding, drop_expired,
}
use kured.DaemonSetLock.Multi.Space.{own, can_acquire_multiple-expected}
use kured.DaemonSetLock.Multi.Removal.{remove_lock-Removed, Removed}
use kured.DaemonSetLock.Multi.Decide.{locks, entries}
use kured.DaemonSetLock.Multi.Exclusion.{owners-le-concurrency, lease-Among, refines_leases}
use kured.DaemonSetLock.Cluster.Leases.{LeaseReach, LeaseStep}
use kured.DaemonSetLock.Cluster.Refinement.{view}
use kured.DaemonSetLock.Multi.Reentry.{find_holding-remove_lock, acquire_decide-unnamed}
use kured.DaemonSetLock.Examples.{free}
use kured.DaemonSetLock.Examples.Server.{
  server, node_a, node_b, schedulable, node_lock_annotation, kube_system, ds_name, one_minute,
}
use kured.DaemonSetLock.Examples.MultiCodec.{encode_multi, multi_codec, lock_of, fleet}

-- Node a takes the lock, and then node b.
record Shared : Type 0 where
  last : System server fleet
  reach : Reach server fleet last

shared : Shared
unfolding acquire_decide text_eq lookup insert
shared = record {
  last = _;
  reach =
      later
        (later
          (later
            (later (start free 1000 (omega arith)) (acquire_read node_a schedulable refl refl refl))
            (acquire_write node_a refl))
          (acquire_read node_b schedulable refl refl refl))
        (acquire_write node_b refl);
}

abbrev pub lease_of : Text → LockAnnotationValue
lease_of i = record { node_id = i; metadata = schedulable; created = 1000; ttl = pos 60 }

shared_pcs :
    (shared.last.pc node_a ≡ owner (lease_of node_a))
    × (shared.last.pc node_b ≡ owner (lease_of node_b))
unfolding shared text_eq
shared_pcs = (refl, refl)

pub a_ne_b : node_a ≢ node_b
unfolding text_eq
a_ne_b e = let same : text_eq node_a node_b ≡ true = (text_eq_iff node_a node_b).1 e in ground arith

lease-Among_example :
    Among
      (lease_of node_a)
      (entries multi_codec (get_annotation node_lock_annotation shared.last.server.annotations))
    × (node_a ≡ node_a)
    × (length
          (entries multi_codec (get_annotation node_lock_annotation shared.last.server.annotations))
        ≤ 2)
unfolding shared ttl_expired
lease-Among_example =
    lease-Among multi_codec (λ i. one_minute) kube_system ds_name node_lock_annotation 1 server
      shared.last node_a (lease_of node_a) shared.reach shared_pcs.0 refl

-- The write of node b, in the last step.
record Granted : Type 0 where
  before : System server fleet
  reach : Reach server fleet before
  step : Step server fleet before shared.last

granted : Granted
unfolding shared acquire_decide text_eq lookup insert
granted = record {
  before = _;
  reach =
      later
        (later
          (later (start free 1000 (omega arith)) (acquire_read node_a schedulable refl refl refl))
          (acquire_write node_a refl))
        (acquire_read node_b schedulable refl refl refl);
  step = acquire_write node_b refl;
}

refines_leases_example :
    LeaseReach 2 (view server fleet granted.before)
    × LeaseStep 2 (view server fleet granted.before) (view server fleet shared.last)
refines_leases_example =
    refines_leases multi_codec (λ i. one_minute) kube_system ds_name node_lock_annotation 1 server
      granted.before shared.last granted.reach granted.step

owners-le-concurrency_example : length (node_a ∷ node_b ∷ []) ≤ 2
unfolding shared ttl_expired
owners-le-concurrency_example =
    owners-le-concurrency multi_codec (λ i. one_minute) kube_system ds_name node_lock_annotation 1
      server shared.last (node_a ∷ node_b ∷ []) shared.reach ((a_ne_b, tt), (tt, tt))
      ((lease_of node_a, shared_pcs.0, refl), ((lease_of node_b, shared_pcs.1, refl), tt))

-- One lock, of node a, that has expired at the time 2000.
abbrev stale : MultiLockAnnotationValue
stale = record { max_owners = pos 2; locks = some (lease_of node_a ∷ []) }

can_acquire_multiple-expected_example :
    can_acquire_multiple (lock_of node_b).lock stale schedulable (pos 60) (pos 1) 2000 ≡ (
      true,
      record {
        max_owners = pos 1;
        locks = some (own (lock_of node_b).lock schedulable (pos 60) (pos 1) 2000 ∷ []);
      },
    )
unfolding ttl_expired
can_acquire_multiple-expected_example =
    can_acquire_multiple-expected (lock_of node_b).lock schedulable (pos 60) (pos 1) 2000 stale

remove_lock-Removed_example :
    ((remove_lock node_a (lease_of node_b ∷ lease_of node_a ∷ []) ≡ none)
      × All
          (λ (w : LockAnnotationValue). w.node_id ≢ node_a)
          (lease_of node_b ∷ lease_of node_a ∷ []))
    ⊎ ((r : List LockAnnotationValue) × (remove_lock node_a (lease_of node_b ∷ lease_of node_a ∷ [])
          ≡ some r)
        × Removed node_a (lease_of node_b ∷ lease_of node_a ∷ []) r)
remove_lock-Removed_example = remove_lock-Removed node_a (lease_of node_b ∷ lease_of node_a ∷ [])

find_holding-remove_lock_example :
    (rest : List LockAnnotationValue) × (remove_lock node_a (
        elements
          (can_acquire_multiple
            (lock_of node_a).lock
            stale
            schedulable
            (pos 60)
            (pos 2)
            2000).1.locks)
      ≡ some rest)
    × (find_holding node_a 2030 rest ≢ none)
unfolding ttl_expired
find_holding-remove_lock_example =
    find_holding-remove_lock (lock_of node_a).lock schedulable (pos 60) (pos 2) 2000 stale
      (lease_of node_a) 2030 refl (inl refl) refl refl

-- A DaemonSet with the locks of two nodes, which a third asks for.
abbrev pub full : DaemonSet
full = record {
  version = 9;
  annotations = some (
      (
        node_lock_annotation,
        encode_multi
            (record { max_owners = pos 2; locks = some (lease_of node_a ∷ lease_of node_b ∷ []) }),
      )
      ∷ []);
}

record Refused : Type 0 where
  reply : AcquireReply
  answered : acquire_decide multi_codec (lock_of (codes "c")) schedulable 1030 full ≡ answer reply
  no_error : reply.error ≡ none

refused : Refused
unfolding acquire_decide text_eq lookup drop_expired ttl_expired
refused = record { reply = _; answered = refl; no_error = refl }

acquire_decide-unnamed_example :
    (refused.reply.acquired ≡ false)
    × (refused.reply.holder ≡ [])
    × (locks multi_codec (lock_of (codes "c")) full ≢ [])
acquire_decide-unnamed_example =
    acquire_decide-unnamed multi_codec (lock_of (codes "c")) schedulable 1030 1 full refused.reply
      refl refused.answered refused.no_error
