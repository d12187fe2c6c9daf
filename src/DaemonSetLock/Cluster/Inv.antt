-- ===== src/DaemonSetLock/Cluster/Inv.antt =====
-- The invariant of the nodes that share a lock, and that every step keeps it.
use kured.Common.{ℕ, ◌≤◌, ◌≡◌, ◌≢◌, inl, refl, ap, Option, some, Text, length, arith}
use kured.DaemonSetLock.Value.{NodeMeta, LockAnnotationValue}
use kured.DaemonSetLock.Api.{DaemonSet, UpdateReply, updated, conflict, failed, ApiServer}
use kured.DaemonSetLock.Reply.{AcquireReply, LockError}
use kured.DaemonSetLock.Retry.{write}
use kured.DaemonSetLock.Cluster.{
  Pc, idle, acquiring, owner, leaving, releasing, set_pc, after_acquire, after_release, Among,
  Discipline, System, Step, elapse, others, restart, acquire_read, acquire_owned, acquire_write,
  holding_read, release_start, release_error, release_read, release_write, Reach, start, later,
}
use kured.DaemonSetLock.Cluster.Sound.{
  set_pc-all, locks, Sound, Sound-elapse, Sound-others, Sound-claim, Sound-leave, stored_it,
  kept_it, Wrote-total,
}

module _ (api : ApiServer) (lock : Discipline) where
  open api use {State, stored, get, update, get_stored, update_updated}
  open lock use {key, acquire, lease, holding, release}

  pub record Inv (s : System api lock) : Type 0 where
    pub few : length (locks lock (stored s.server)) ≤ lock.max_owners
    pub sound : (i : Text) → Sound lock s.now (stored s.server) i (s.pc i)

  acquired-Sound :
      (now : ℕ) (i : Text) (v : LockAnnotationValue) (ds old new : DaemonSet) (r : UpdateReply)
      → (r ≡ updated → new.annotations ≡ ds.annotations)
      → Sound lock now old i (acquiring ds v)
      → Sound lock now new i (after_acquire v r)
  acquired-Sound now i v ds old new updated taken g = (g.1, inl (rw (taken refl) g.2))
  acquired-Sound now i v ds old new conflict taken g = tt
  acquired-Sound now i v ds old new failed taken g = tt

  released-Sound :
      (now : ℕ) (i : Text) (cur : DaemonSet) (r : UpdateReply)
      → Sound lock now cur i (after_release r)
  released-Sound now i cur updated = tt
  released-Sound now i cur conflict = tt
  released-Sound now i cur failed = tt

  -- The decisions of a node, about the DaemonSet that is stored when it reads.
  module _ (s : System api lock) (inv : Inv s) (i : Text) (ds : DaemonSet) where
    module _ (read : get s.server ≡ some ds) where
      stored_version : ds.version ≡ (stored s.server).version
      stored_version = ap (λ (d : DaemonSet). d.version) (get_stored s.server ds read)

      stored_locks : locks lock ds ≡ locks lock (stored s.server)
      stored_locks = ap (locks lock) (get_stored s.server ds read)

      claim-Sound :
          (meta : NodeMeta) (ds' : DaemonSet) (r : AcquireReply)
          → acquire i meta s.now ds ≡ write ds' r
          → Sound lock s.now (stored s.server) i (acquiring ds' (lease i meta s.now))
      claim-Sound meta ds' r decided = (
        omega (arith, stored_version, lock.acquire_version i meta s.now ds ds' r decided),
        lock.lease_node_id i meta s.now,
        lock.acquire_lease i meta s.now ds ds' r decided,
        lock.acquire_bound i meta s.now ds ds' r decided
            (omega (arith, ap length stored_locks, inv.few)),
        λ _ w h. lock.acquire_keeps i meta s.now ds ds' r decided w (rw stored_locks h),
      )

      owned-Sound :
          (v : LockAnnotationValue)
          → Among v (locks lock ds)
          → v.node_id ≡ i
          → Sound lock s.now (stored s.server) i (owner v)
      owned-Sound v h own = (own, inl (rw (← stored_locks) h))

      release-Sound :
          (ds' : DaemonSet) (r : Option LockError)
          → release i s.now ds ≡ write ds' r
          → Sound lock s.now (stored s.server) i (releasing ds')
      release-Sound ds' r decided = (
        omega (arith, stored_version, lock.release_version i s.now ds ds' r decided),
        omega (arith, ap length stored_locks, inv.few, lock.release_bound i s.now ds ds' r decided),
        λ _ w h. lock.release_keeps i s.now ds ds' r decided w (rw stored_locks h),
      )

    -- A write, seen from the other nodes, and the number of locks after it.
    claim-others :
        (v : LockAnnotationValue)
        → s.pc i ≡ acquiring ds v
        → (j : Text) → Sound lock s.now (stored (update ds s.server).1) j (s.pc j)
    claim-others v at j = elim (Wrote-total api ds s.server) [
      | stored_it st ↦
          Sound-claim lock s.now _ ds _ i v j (s.pc j) st (rw at at (inv.sound i)) (inv.sound j)
      | kept_it _ same ↦ rw same (inv.sound j)
    ]

    leave-others :
        s.pc i ≡ releasing ds
        → (j : Text) → i ≢ j
        → Sound lock s.now (stored (update ds s.server).1) j (s.pc j)
    leave-others at j ne = elim (Wrote-total api ds s.server) [
      | stored_it st ↦
          Sound-leave lock s.now _ ds _ i j (s.pc j) st (rw at at (inv.sound i)) ne (inv.sound j)
      | kept_it _ same ↦ rw same (inv.sound j)
    ]

    update-few :
        length (locks lock ds) ≤ lock.max_owners
        → length (locks lock (stored (update ds s.server).1)) ≤ lock.max_owners
    update-few few = elim (Wrote-total api ds s.server) [
      | stored_it st ↦ rw st.taken few
      | kept_it _ same ↦ rw same inv.few
    ]

  -- A step of node `i` that leaves the server alone.
  local-Inv :
      (s : System api lock) (i : Text) (p : Pc)
      → Sound lock s.now (stored s.server) i p
      → Inv s
      → Inv (record s { pc = set_pc s.pc i p })
  local-Inv s i p g inv = record {
    few = inv.few;
    sound = set_pc-all (Sound lock s.now (stored s.server)) s.pc i p g λ j _. inv.sound j;
  }

  -- Every step keeps what each node may rely on, and the number of locks.
  pub Step-Inv : {s t : System api lock} → Step api lock s t → Inv s → Inv t
  Step-Inv {s} (elapse {t = t} le) inv = record {
    few = inv.few;
    sound = λ i. Sound-elapse lock s.now t (stored s.server) i (s.pc i) le (inv.sound i);
  }
  Step-Inv {s} (others u) inv = record {
    few = omega (arith, ap length (ap lock.entries u.kept), inv.few);
    sound = λ i. Sound-others lock s.now _ _ i (s.pc i) u (inv.sound i);
  }
  Step-Inv {s} (restart i) inv = local-Inv s i idle tt inv
  Step-Inv {s} (acquire_read i meta {ds = ds} {ds' = ds'} {r = r} at read decided) inv =
      local-Inv s i _ (claim-Sound s inv i ds read meta ds' r decided) inv
  Step-Inv {s} (acquire_owned i meta {ds = ds} v at read decided acquired h own) inv =
      local-Inv s i _ (owned-Sound s inv i ds read v h own) inv
  Step-Inv {s} (acquire_write i {ds = ds} {v = v} at) inv =
      let pending : Sound lock s.now (stored s.server) i (acquiring ds v) =
        rw at at (inv.sound i) in
      record {
        few = update-few s inv i ds pending.3;
        sound =
            set_pc-all (Sound lock s.now _) s.pc i _
              (acquired-Sound s.now i v ds (stored s.server) _ _
                (λ e. (update_updated ds s.server e).taken) pending)
              (λ j _. claim-others s inv i ds v at j);
      }
  Step-Inv {s} (holding_read i {ds = ds} at read holds) inv =
      let (h, own) = lock.holding_true i s.now ds holds in
      local-Inv s i _ (owned-Sound s inv i ds read _ h own) inv
  Step-Inv {s} (release_start i at) inv = local-Inv s i leaving tt inv
  Step-Inv {s} (release_error i at) inv = local-Inv s i idle tt inv
  Step-Inv {s} (release_read i {ds = ds} {ds' = ds'} {r = r} at read decided) inv =
      local-Inv s i _ (release-Sound s inv i ds read ds' r decided) inv
  Step-Inv {s} (release_write i {ds = ds} at) inv =
      let pending : Sound lock s.now (stored s.server) i (releasing ds) = rw at at (inv.sound i) in
      record {
        few = update-few s inv i ds pending.1;
        sound =
            set_pc-all (Sound lock s.now _) s.pc i _ (released-Sound s.now i _ _)
              (λ j ne. leave-others s inv i ds at j ne);
      }

  pub Reach-Inv : {s : System api lock} → Reach api lock s → Inv s
  Reach-Inv (start server now few) = record { few = few; sound = λ i. tt }
  Reach-Inv (later r st) = Step-Inv st (Reach-Inv r)
