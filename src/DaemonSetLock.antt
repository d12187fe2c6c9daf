-- ===== src/DaemonSetLock.antt =====
-- pkg/daemonsetlock/daemonsetlock.go: the lock that the nodes share in an annotation of kured's
-- DaemonSet. The definitions are in Value, Api, Retry, Single and Multi, the proofs below these.
pub mod Value
pub mod Api
pub mod Reply
pub mod Retry
pub mod Single
pub mod Multi
pub mod Cluster
pub mod Examples
