-- ===== src/DaemonSetLock/Cluster/Refinement.antt =====
-- The nodes of Cluster implement the leases of Cluster/Leases.
use kured.Common.{
  ◌≡◌, refl, ap, ◌∙◌, Option, none, some, List, [], ◌∷◌, Text, text_eq_iff, text_eq_refl, All,
  arith,
}
use kured.DaemonSetLock.Value.{LockAnnotationValue}
use kured.DaemonSetLock.Api.{ApiServer, UpdateReply, updated, conflict, failed}
use kured.DaemonSetLock.Cluster.{
  Pc, idle, acquiring, owner, leaving, releasing, set_pc, after_acquire, after_release, Discipline,
  System, Step, elapse, others, restart, acquire_read, acquire_owned, acquire_write, holding_read,
  release_start, release_error, release_read, release_write, Reach, start, later,
}
use kured.DaemonSetLock.Cluster.Inv.{Reach-Inv}
use kured.DaemonSetLock.Cluster.Sound.{Sound}
use kured.DaemonSetLock.Cluster.Exclusion.{IsOwner, owners-le-max}
use kured.DaemonSetLock.Cluster.Leases.{
  Leases, IsLive, HasRoom, Changed, LeaseStep, wait, grant, give_up, keep, LeaseReach, empty, next,
}

abbrev pub lease_of : Pc → Option LockAnnotationValue
lease_of (owner v) = some v
lease_of _ = none

owner_of_lease : (p : Pc) (v : LockAnnotationValue) → lease_of p ≡ some v → p ≡ owner v
owner_of_lease idle v e = ground arith
owner_of_lease (acquiring ds w) v e = ground arith
owner_of_lease (owner w) v e = ground arith
owner_of_lease leaving v e = ground arith
owner_of_lease (releasing ds) v e = ground arith

set_pc-Changed :
    (pc : Text → Pc) (i : Text) (p : Pc)
    → Changed i (lease_of p) (λ j. lease_of (pc j)) (λ j. lease_of (set_pc pc i p j))
set_pc-Changed pc i p = record {
  here = simp (text_eq_refl i);
  elsewhere = λ j ne. ground (arith, text_eq_iff i j);
}

module _ (api : ApiServer) (lock : Discipline) where
  -- What the specification sees of the nodes.
  abbrev pub view : System api lock → Leases
  view s = record { now = s.now; lease = λ i. lease_of (s.pc i) }

  IsLive-IsOwner :
      (s : System api lock) (is : List Text)
      → All (IsLive (view s)) is
      → All (IsOwner api lock s) is
  IsLive-IsOwner s [] h = tt
  IsLive-IsOwner s (i ∷ is) ((v, e, live), h) =
      ((v, owner_of_lease (s.pc i) v e, live), IsLive-IsOwner s is h)

  view-HasRoom : (s : System api lock) → Reach api lock s → HasRoom lock.max_owners (view s)
  view-HasRoom s r is d h = owners-le-max api lock s is r d (IsLive-IsOwner s is h)

  -- A step that puts node `i` at a point where it relies on nothing.
  drop :
      (s : System api lock) (i : Text) (p : Pc)
      → lease_of p ≡ none
      → Changed i none (λ j. lease_of (s.pc j)) (λ j. lease_of (set_pc s.pc i p j))
  drop s i p e = record {
    here = (set_pc-Changed s.pc i p).here ∙ e;
    elsewhere = (set_pc-Changed s.pc i p).elsewhere;
  }

  -- Node `i`, which relied on nothing, relies on its lease, whatever became of the server.
  granted :
      (s : System api lock) (i : Text) (v : LockAnnotationValue) (server : api.State)
      → lease_of (s.pc i) ≡ none
      → v.node_id ≡ i
      → Reach api lock (record { server = server; now = s.now; pc = set_pc s.pc i (owner v) })
      → LeaseStep lock.max_owners
          (view s)
          (view (record { server = server; now = s.now; pc = set_pc s.pc i (owner v) }))
  granted s i v server free own r =
      grant i v free own (set_pc-Changed s.pc i (owner v)) (view-HasRoom _ r)

  -- The write of `Acquire` grants the lease if it is stored.
  written :
      (s : System api lock) (i : Text) (v : LockAnnotationValue) (server : api.State)
      (reply : UpdateReply)
      → lease_of (s.pc i) ≡ none
      → v.node_id ≡ i
      → Reach api lock
          (record { server = server; now = s.now; pc = set_pc s.pc i (after_acquire v reply) })
      → LeaseStep lock.max_owners (view s) (
          view
            (record { server = server; now = s.now; pc = set_pc s.pc i (after_acquire v reply) }))
  written s i v server updated free own r = granted s i v server free own r
  written s i v server conflict free own r = give_up i (drop s i idle refl)
  written s i v server failed free own r = give_up i (drop s i idle refl)

  -- One step of the nodes is one step of the specification.
  pub Step_refines :
      {s t : System api lock}
      → Reach api lock s
      → Step api lock s t
      → LeaseStep lock.max_owners (view s) (view t)
  Step_refines r (elapse le) = wait le
  Step_refines r (others u) = keep
  Step_refines {s} r (restart i) = give_up i (drop s i idle refl)
  Step_refines {s} r (acquire_read i meta at read decided) = give_up i (drop s i _ refl)
  Step_refines {s} r (acquire_owned i meta v at read decided acquired h own) =
      granted s i v s.server (ap lease_of at) own
        (later r (acquire_owned i meta v at read decided acquired h own))
  Step_refines {s} r (acquire_write i {ds = ds} {v = v} at) =
      let pending : Sound lock s.now (api.stored s.server) i (acquiring ds v) =
        rw at at ((Reach-Inv api lock r).sound i) in
      written s i v _ (api.update ds s.server).0 (ap lease_of at) pending.1
        (later r (acquire_write i at))
  Step_refines {s} r (holding_read i {ds = ds} at read holds) =
      granted s i (lock.holding i s.now ds).data_ s.server (ap lease_of at)
        (lock.holding_true i s.now ds holds).1 (later r (holding_read i at read holds))
  Step_refines {s} r (release_start i at) = give_up i (drop s i leaving refl)
  Step_refines {s} r (release_error i at) = give_up i (drop s i idle refl)
  Step_refines {s} r (release_read i at read decided) = give_up i (drop s i _ refl)
  Step_refines {s} r (release_write i {ds = ds} at) =
      give_up i (drop s i _ (released (api.update ds s.server).0))
    where
      released : (reply : UpdateReply) → lease_of (after_release reply) ≡ none
      released updated = refl
      released conflict = refl
      released failed = refl

  pub Reach_refines : {s : System api lock} → Reach api lock s → LeaseReach lock.max_owners (view s)
  Reach_refines (start server now few) = empty now
  Reach_refines (later r st) = next (Reach_refines r) (Step_refines r st)
