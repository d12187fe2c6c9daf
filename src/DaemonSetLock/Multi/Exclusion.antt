-- ===== src/DaemonSetLock/Multi/Exclusion.antt =====
-- How many nodes own the lock of several owners of pkg/daemonsetlock/daemonsetlock.go.
use kured.Common.{ℕ, suc, ◌≤◌, ◌≡◌, false, List, Text, length, All}
use kured.DaemonSetLock.Value.{
  MultiLockAnnotationValue, LockAnnotationValue, is_expired, GenericLock,
}
use kured.DaemonSetLock.Api.{ApiServer, Codec, get_annotation}
use kured.DaemonSetLock.Multi.Nodes.{nodes}
use kured.DaemonSetLock.Cluster.{System, Reach, Step, owner, Among}
use kured.DaemonSetLock.Cluster.Exclusion.{Distinct, IsOwner, owners-le-max, owner-Among}
use kured.DaemonSetLock.Cluster.Inv.{Reach-Inv}
use kured.DaemonSetLock.Cluster.Leases.{LeaseReach, LeaseStep}
use kured.DaemonSetLock.Cluster.Refinement.{view, Step_refines, Reach_refines}
use kured.DaemonSetLock.Multi.Decide.{entries}

module _ (codec : Codec MultiLockAnnotationValue) (generic : Text → GenericLock) where
  module _ (namespace name key : Text) (m : ℕ) (api : ApiServer) where
    -- At most `m + 1` distinct nodes rely on unexpired leases of a lock that allows `m + 1` owners, in
    -- every state that is reachable from a DaemonSet with no more locks: whatever the interleaving, the
    -- conflicts and the lost replies.
    pub owners-le-concurrency :
        (s : System api (nodes codec generic namespace name key m)) (is : List Text)
        → Reach api (nodes codec generic namespace name key m) s
        → Distinct is
        → All (IsOwner api (nodes codec generic namespace name key m) s) is
        → length is ≤ suc m
    owners-le-concurrency s is r d h =
        owners-le-max api (nodes codec generic namespace name key m) s is r d h

    -- A node that relies on an unexpired lease finds it in the annotation, under its own name, in a
    -- list of at most `m + 1` locks, in every reachable state.
    pub lease-Among :
        (s : System api (nodes codec generic namespace name key m)) (i : Text)
        (v : LockAnnotationValue)
        → Reach api (nodes codec generic namespace name key m) s
        → s.pc i ≡ owner v
        → is_expired s.now v ≡ false
        → Among v (entries codec (get_annotation key (api.stored s.server).annotations))
          × (v.node_id ≡ i)
          × (length (entries codec (get_annotation key (api.stored s.server).annotations)) ≤ suc m)
    lease-Among s i v r at live =
        let (among, own) =
          owner-Among api (nodes codec generic namespace name key m) s i v r at live in
        (among, own, (Reach-Inv api (nodes codec generic namespace name key m) r).few)

    -- Every run of the nodes is a run of the leases of Cluster/Leases with `m + 1` owners, step by
    -- step: seen from there, reads, writes, conflicts and lost replies are grants of a lease within
    -- the number of owners to a node that has none, and losses by the node's own doing.
    pub refines_leases :
        (s t : System api (nodes codec generic namespace name key m))
        → Reach api (nodes codec generic namespace name key m) s
        → Step api (nodes codec generic namespace name key m) s t
        → LeaseReach (suc m) (view api (nodes codec generic namespace name key m) s)
          × LeaseStep
              (suc m)
              (view api (nodes codec generic namespace name key m) s)
              (view api (nodes codec generic namespace name key m) t)
    refines_leases s t r st = (
      Reach_refines api (nodes codec generic namespace name key m) r,
      Step_refines api (nodes codec generic namespace name key m) r st,
    )
