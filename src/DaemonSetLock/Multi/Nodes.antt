-- ===== src/DaemonSetLock/Multi/Nodes.antt =====
-- The nodes of a cluster that share the lock of several owners of pkg/daemonsetlock/daemonsetlock.go:
-- its methods fill the interface `Discipline`.
use kured.Common.{ℕ, suc, refl, some, Text, pos}
use kured.DaemonSetLock.Value.{MultiLockAnnotationValue, GenericLock, DaemonSetMultiLock}
use kured.DaemonSetLock.Api.{Codec}
use kured.DaemonSetLock.Multi.{acquire_decide, holding_daemon_set, release_decide}
use kured.DaemonSetLock.Multi.Space.{own}
use kured.DaemonSetLock.Multi.Removal.{remove_lock-keeps, Removed-length-le}
use kured.DaemonSetLock.Multi.Decide.{
  entries, acquire_decide-version, acquire_decide-own, acquire_decide-keeps, acquire_decide-length,
  holding-Among, release_decide-Removed, release_Removed,
}
use kured.DaemonSetLock.Cluster.{Discipline}

module _ (codec : Codec MultiLockAnnotationValue) (generic : Text → GenericLock) where
  module _ (namespace name key : Text) (m : ℕ) where
    abbrev pub node_lock : Text → DaemonSetMultiLock
    node_lock i = record {
      generic = generic i;
      lock = record { node_id = i; namespace = namespace; name = name; annotation = key };
      max_owners = pos (suc m);
    }

    -- Nodes that `New` makes from the same flags, at most `m + 1` of them owners; they may differ in
    -- the TTL.
    abbrev pub nodes : Discipline
    nodes = record {
      key = key;
      max_owners = suc m;
      entries = entries codec;
      acquire = λ i. acquire_decide codec (node_lock i);
      lease =
          λ i meta now. own (node_lock i).lock meta (node_lock i).ttl (node_lock i).max_owners now;
      holding = λ i now ds. holding_daemon_set codec (node_lock i) now (some ds);
      release = λ i. release_decide codec (node_lock i);
      lease_node_id = λ i meta now. refl;
      acquire_version = λ i. acquire_decide-version codec (node_lock i);
      acquire_lease = λ i. acquire_decide-own codec (node_lock i);
      acquire_keeps = λ i. acquire_decide-keeps codec (node_lock i);
      acquire_bound = λ i. acquire_decide-length codec (node_lock i) m refl;
      holding_true = λ i. holding-Among codec (node_lock i);
      release_version =
          λ i now ds ds' r e. (release_decide-Removed codec (node_lock i) now ds ds' r e).1;
      release_keeps = λ i now ds ds' r e.
          remove_lock-keeps i _ _ (release_Removed codec (node_lock i) now ds ds' r e);
      release_bound = λ i now ds ds' r e.
          Removed-length-le i _ _ (release_Removed codec (node_lock i) now ds ds' r e);
    }
