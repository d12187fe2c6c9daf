-- ===== src/DaemonSetLock/Single/Nodes.antt =====
-- The nodes of a cluster that share the single lock of pkg/daemonsetlock/daemonsetlock.go: its methods
-- fill the interface `Discipline`.
use kured.Common.{
  ℕ, ◌≤◌, ◌≡◌, ◌⊎◌, inl, inr, refl, ap, true, Option, none, some, List, [], ◌∷◌, Text, length,
  arith,
}
use kured.DaemonSetLock.Value.{
  NodeMeta, LockAnnotationValue, is_expired, GenericLock, DaemonSetSingleLock,
}
use kured.DaemonSetLock.Api.{DaemonSet, get_annotation, Codec}
use kured.DaemonSetLock.Reply.{AcquireReply, LockError}
use kured.DaemonSetLock.Retry.{write}
use kured.DaemonSetLock.Single.{new_value, acquire_decide, release_decide, holding_daemon_set}
use kured.DaemonSetLock.Single.Decide.{
  decode, acquire_decide-write, holding_daemon_set-true, release_decide-write,
}
use kured.DaemonSetLock.Cluster.{Among, Discipline}

abbrev pub to_list : Option LockAnnotationValue → List LockAnnotationValue
to_list none = []
to_list (some v) = v ∷ []

pub length-to_list-le : (o : Option LockAnnotationValue) → length (to_list o) ≤ 1
length-to_list-le none = omega arith
length-to_list-le (some v) = omega arith

pub Among-to_list :
    (w : LockAnnotationValue) (o : Option LockAnnotationValue) → Among w (to_list o) → o ≡ some w
Among-to_list w none h = absurd h
Among-to_list w (some v) h = ground arith

pub to_list-Among :
    (w : LockAnnotationValue) (o : Option LockAnnotationValue) → o ≡ some w → Among w (to_list o)
to_list-Among w none e = cc
to_list-Among w (some v) e = inl (cc)

module _ (codec : Codec LockAnnotationValue) (dsl : DaemonSetSingleLock) where
  abbrev pub entries : Option Text → List LockAnnotationValue
  entries text = to_list (decode codec text)

  abbrev pub locks : DaemonSet → List LockAnnotationValue
  locks ds = entries (get_annotation dsl.annotation ds.annotations)

  pub acquire-keeps :
      (meta : NodeMeta) (now : ℕ) (ds ds' : DaemonSet) (r : AcquireReply)
      → acquire_decide codec dsl meta now ds ≡ write ds' r
      → (w : LockAnnotationValue) → Among w (locks ds)
      → Among w (locks ds') ⊎ (is_expired now w ≡ true)
  acquire-keeps meta now ds ds' r e w h =
      let (version, value, free) = acquire_decide-write codec dsl meta now ds ds' r e in
      inr (free w (Among-to_list w _ h))

  pub holding-Among :
      (now : ℕ) (ds : DaemonSet)
      → (holding_daemon_set codec dsl now (some ds)).holding ≡ true
      → Among (holding_daemon_set codec dsl now (some ds)).data_ (locks ds)
        × ((holding_daemon_set codec dsl now (some ds)).data_.node_id ≡ dsl.node_id)
  holding-Among now ds h =
      let (value, own, live) = holding_daemon_set-true codec dsl now ds h in
      (to_list-Among _ _ value, own)

  pub release-keeps :
      (now : ℕ) (ds ds' : DaemonSet) (r : Option LockError)
      → release_decide codec dsl now ds ≡ write ds' r
      → (w : LockAnnotationValue) → Among w (locks ds)
      → Among w (locks ds') ⊎ (w.node_id ≡ dsl.node_id)
  release-keeps now ds ds' r e w h =
      let (version, gone, own) = release_decide-write codec dsl now ds ds' r e in
      inr (own w (Among-to_list w _ h))

  pub release-length :
      (now : ℕ) (ds ds' : DaemonSet) (r : Option LockError)
      → release_decide codec dsl now ds ≡ write ds' r
      → length (locks ds') ≤ length (locks ds)
  release-length now ds ds' r e =
      let (version, gone, own) = release_decide-write codec dsl now ds ds' r e in
      omega (arith, ap length (ap to_list gone))

-- Nodes that `New` makes from the same flags; they may differ in the TTL.
module _ (codec : Codec LockAnnotationValue) (generic : Text → GenericLock) where
  module _ (namespace name key : Text) where
    abbrev pub node_lock : Text → DaemonSetSingleLock
    node_lock i = record {
      generic = generic i;
      lock = record { node_id = i; namespace = namespace; name = name; annotation = key };
    }

    abbrev pub nodes : Discipline
    nodes = record {
      key = key;
      max_owners = 1;
      entries = entries codec (node_lock []);
      acquire = λ i. acquire_decide codec (node_lock i);
      lease = λ i. new_value codec (node_lock i);
      holding = λ i now ds. holding_daemon_set codec (node_lock i) now (some ds);
      release = λ i. release_decide codec (node_lock i);
      lease_node_id = λ i meta now. refl;
      acquire_version =
          λ i meta now ds ds' r e. (acquire_decide-write codec (node_lock i) meta now ds ds' r e).0;
      acquire_lease = λ i meta now ds ds' r e.
          to_list-Among _ _ (acquire_decide-write codec (node_lock i) meta now ds ds' r e).1;
      acquire_keeps = λ i. acquire-keeps codec (node_lock i);
      acquire_bound = λ i meta now ds ds' r e few. length-to_list-le _;
      holding_true = λ i. holding-Among codec (node_lock i);
      release_version =
          λ i now ds ds' r e. (release_decide-write codec (node_lock i) now ds ds' r e).0;
      release_keeps = λ i. release-keeps codec (node_lock i);
      release_bound = λ i. release-length codec (node_lock i);
    }
