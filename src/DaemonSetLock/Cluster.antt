-- ===== src/DaemonSetLock/Cluster.antt =====
-- Nodes that run pkg/daemonsetlock/daemonsetlock.go against one API server, interleaved a call at a
-- time: each round of `Acquire` and of `Release` is a read and a write, and anything may happen in
-- between. All nodes use the same annotation of the same DaemonSet, and read one clock. The methods
-- are those of an interface, `Discipline`, which both locks fill.
pub mod Sound
pub mod Inv
pub mod Exclusion
pub mod Leases
pub mod Refinement
use kured.Common.{
  ℕ, ◌≤◌, ◌≡◌, ◌⊎◌, Bool, true, false, Option, none, some, List, [], ◌∷◌, Text, text_eq, length,
  if◌then◌else◌,
}
use kured.DaemonSetLock.Value.{NodeMeta, LockAnnotationValue, is_expired}
use kured.DaemonSetLock.Api.{
  DaemonSet, UpdateReply, updated, conflict, failed, ApiServer, get_annotation,
}
use kured.DaemonSetLock.Reply.{AcquireReply, HoldingReply, LockError}
use kured.DaemonSetLock.Retry.{Decision, write, answer}

abbrev pub Among : LockAnnotationValue → List LockAnnotationValue → Type 0
Among v [] = ⊥
Among v (w ∷ ws) = (v ≡ w) ⊎ Among v ws

-- The methods of the nodes, node `i` by its name, and what the proofs use of them: a lock that is
-- written over has expired, one that is removed is the node's own, and one that is relied on is
-- there.
pub record Discipline : Type 0 where
  pub key : Text
  pub max_owners : ℕ
  pub entries : Option Text → List LockAnnotationValue
  pub acquire : Text → NodeMeta → ℕ → DaemonSet → Decision AcquireReply
  pub lease : Text → NodeMeta → ℕ → LockAnnotationValue
  pub holding : Text → ℕ → DaemonSet → HoldingReply
  pub release : Text → ℕ → DaemonSet → Decision (Option LockError)
  pub lease_node_id : (i : Text) (meta : NodeMeta) (now : ℕ) → (lease i meta now).node_id ≡ i
  pub acquire_version :
      (i : Text) (meta : NodeMeta) (now : ℕ) (ds ds' : DaemonSet) (r : AcquireReply)
      → acquire i meta now ds ≡ write ds' r
      → ds'.version ≡ ds.version
  pub acquire_lease :
      (i : Text) (meta : NodeMeta) (now : ℕ) (ds ds' : DaemonSet) (r : AcquireReply)
      → acquire i meta now ds ≡ write ds' r
      → Among (lease i meta now) (entries (get_annotation key ds'.annotations))
  pub acquire_keeps :
      (i : Text) (meta : NodeMeta) (now : ℕ) (ds ds' : DaemonSet) (r : AcquireReply)
      → acquire i meta now ds ≡ write ds' r
      → (w : LockAnnotationValue) → Among w (entries (get_annotation key ds.annotations))
      → Among w (entries (get_annotation key ds'.annotations)) ⊎ (is_expired now w ≡ true)
  pub acquire_bound :
      (i : Text) (meta : NodeMeta) (now : ℕ) (ds ds' : DaemonSet) (r : AcquireReply)
      → acquire i meta now ds ≡ write ds' r
      → length (entries (get_annotation key ds.annotations)) ≤ max_owners
      → length (entries (get_annotation key ds'.annotations)) ≤ max_owners
  pub holding_true :
      (i : Text) (now : ℕ) (ds : DaemonSet)
      → (holding i now ds).holding ≡ true
      → Among (holding i now ds).data_ (entries (get_annotation key ds.annotations))
        × ((holding i now ds).data_.node_id ≡ i)
  pub release_version :
      (i : Text) (now : ℕ) (ds ds' : DaemonSet) (r : Option LockError)
      → release i now ds ≡ write ds' r
      → ds'.version ≡ ds.version
  pub release_keeps :
      (i : Text) (now : ℕ) (ds ds' : DaemonSet) (r : Option LockError)
      → release i now ds ≡ write ds' r
      → (w : LockAnnotationValue) → Among w (entries (get_annotation key ds.annotations))
      → Among w (entries (get_annotation key ds'.annotations)) ⊎ (w.node_id ≡ i)
  pub release_bound :
      (i : Text) (now : ℕ) (ds ds' : DaemonSet) (r : Option LockError)
      → release i now ds ≡ write ds' r
      → length (entries (get_annotation key ds'.annotations))
        ≤ length (entries (get_annotation key ds.annotations))

-- Where a node stands. A node relies on the lock, as `owner`, from the reply that gave it the lock
-- until it calls `Release`; `leaving` is a `Release` that starts a round again.
pub data Pc : Type 0 where
  idle : Pc
  acquiring : (ds : DaemonSet) (lease : LockAnnotationValue) → Pc
  owner : (lease : LockAnnotationValue) → Pc
  leaving : Pc
  releasing : (ds : DaemonSet) → Pc

abbrev pub set_pc : (Text → Pc) → Text → Pc → Text → Pc
set_pc pc i p j = if text_eq i j then p else pc j

-- After the write of `Acquire`: a conflict starts a round again, and an error gives the lock up.
abbrev pub after_acquire : LockAnnotationValue → UpdateReply → Pc
after_acquire lease updated = owner lease
after_acquire lease conflict = idle
after_acquire lease failed = idle

abbrev pub after_release : UpdateReply → Pc
after_release updated = idle
after_release conflict = leaving
after_release failed = idle

-- A write by something that is no kured: the lock's annotation stays as it is.
pub record Undisturbed (key : Text) (old new : DaemonSet) : Type 0 where
  pub newer : old.version ≤ new.version
  pub unchanged : old.version ≡ new.version → new ≡ old
  pub kept : get_annotation key new.annotations ≡ get_annotation key old.annotations

module _ (api : ApiServer) (lock : Discipline) where
  open api use {State, stored, get, update}
  open lock use {key, entries, acquire, lease, holding, release}

  pub record System : Type 0 where
    pub server : State
    pub now : ℕ
    pub pc : Text → Pc

  pub data Step (s : System) : System → Type 0 where
    elapse : {t : ℕ} → s.now ≤ t → Step s (record s { now = t })
    others :
        {server : State}
        → Undisturbed key (stored s.server) (stored server)
        → Step s (record s { server = server })
    restart : (i : Text) → Step s (record s { pc = set_pc s.pc i idle })
    acquire_read :
        (i : Text) (meta : NodeMeta) {ds ds' : DaemonSet} {r : AcquireReply}
        → s.pc i ≡ idle
        → get s.server ≡ some ds
        → acquire i meta s.now ds ≡ write ds' r
        → Step s (record s { pc = set_pc s.pc i (acquiring ds' (lease i meta s.now)) })
    acquire_owned :
        (i : Text) (meta : NodeMeta) {ds : DaemonSet} {r : AcquireReply} (v : LockAnnotationValue)
        → s.pc i ≡ idle
        → get s.server ≡ some ds
        → acquire i meta s.now ds ≡ answer r
        → r.acquired ≡ true
        → Among v (entries (get_annotation key ds.annotations))
        → v.node_id ≡ i
        → Step s (record s { pc = set_pc s.pc i (owner v) })
    acquire_write :
        (i : Text) {ds : DaemonSet} {v : LockAnnotationValue}
        → s.pc i ≡ acquiring ds v
        → Step s (record {
          server = (update ds s.server).1;
          now = s.now;
          pc = set_pc s.pc i (after_acquire v (update ds s.server).0);
        })
    holding_read :
        (i : Text) {ds : DaemonSet}
        → s.pc i ≡ idle
        → get s.server ≡ some ds
        → (holding i s.now ds).holding ≡ true
        → Step s (record s { pc = set_pc s.pc i (owner (holding i s.now ds).data_) })
    release_start :
        (i : Text) {v : LockAnnotationValue}
        → s.pc i ≡ owner v
        → Step s (record s { pc = set_pc s.pc i leaving })
    release_error : (i : Text) → s.pc i ≡ leaving → Step s (record s { pc = set_pc s.pc i idle })
    release_read :
        (i : Text) {ds ds' : DaemonSet} {r : Option LockError}
        → s.pc i ≡ leaving
        → get s.server ≡ some ds
        → release i s.now ds ≡ write ds' r
        → Step s (record s { pc = set_pc s.pc i (releasing ds') })
    release_write :
        (i : Text) {ds : DaemonSet}
        → s.pc i ≡ releasing ds
        → Step s (record {
          server = (update ds s.server).1;
          now = s.now;
          pc = set_pc s.pc i (after_release (update ds s.server).0);
        })

  -- Any DaemonSet may be there at the start that holds no more locks than the owners allowed.
  pub data Reach : System → Type 0 where
    start :
        (server : State) (now : ℕ)
        → length (entries (get_annotation key (stored server).annotations)) ≤ lock.max_owners
        → Reach (record { server = server; now = now; pc = λ i. idle })
    later : {s t : System} → Reach s → Step s t → Reach t
