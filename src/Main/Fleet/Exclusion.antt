-- ===== src/Main/Fleet/Exclusion.antt =====
-- How many nodes of Main/Fleet may cordon, drain or reboot at a time.
use kured.Common.{ℕ, suc, ◌≤◌, ◌≡◌, subst, Bool, true, false, List, [], ◌∷◌, Text, length, All}
use kured.DaemonSetLock.Value.{LockAnnotationValue, is_expired}
use kured.DaemonSetLock.Api.{ApiServer}
use kured.DaemonSetLock.Cluster.{Pc, owner, Discipline, System}
use kured.DaemonSetLock.Cluster.Exclusion.{Distinct, IsOwner, owners-le-max}
use kured.Kube.{cordon_or_uncordon, drain_node, reboot}
use kured.Kube.Program.{Program, call}
use kured.Kube.Trace.{Keeps}
use kured.Taints.{Taint}
use kured.Main.Flags.{Flags}
use kured.Main.Status.{Status, tick_monitor, GoesOn}
use kured.Main.Fleet.{Fleet, FleetReach}
use kured.Main.Fleet.Inv.{seen, Inv, FleetReach-Inv}
use kured.DaemonSetLock.Value.{MultiLockAnnotationValue, GenericLock}
use kured.DaemonSetLock.Api.{Codec}
use kured.DaemonSetLock.Multi.Nodes.{nodes}

module _ (api : ApiServer) (lock : Discipline) where
  module _ (flags : Text → Flags) (contains : Text → ℕ → Bool) where
    -- A call that takes pods or the node away.
    abbrev pub Disrupts : Program Taint → Type 0
    Disrupts (call (cordon_or_uncordon n true) k) = Unit
    Disrupts (call (drain_node i) k) = Unit
    Disrupts (call reboot k) = Unit
    Disrupts _ = ⊥

    abbrev pub IsUnexpired : ℕ → Pc → Type 0
    IsUnexpired now (owner v) = is_expired now v ≡ false
    IsUnexpired now _ = Unit

    -- The node is about to make such a call, and relies on no lease that has expired.
    abbrev pub IsDisrupting : Fleet api lock flags contains → Text → Type 0
    IsDisrupting s i = Disrupts (s.tick i).left × IsUnexpired s.locks.now (s.locks.pc i)

    -- The tick has the lock, and has not tried to release it.
    Disrupts-locked :
        (f : Flags) (c : ℕ → Bool) (m : Status) (p : Program Taint)
        → Keeps (tick_monitor f c) (GoesOn f c) m p
        → Disrupts p
        → (m.locked ≡ true) × (m.release_tried ≡ false)
    Disrupts-locked f c m (call (cordon_or_uncordon n true) k) (rule, rest) d = (rule.1, rule.5)
    Disrupts-locked f c m (call (drain_node i) k) (rule, rest) d = (rule.0.1, rule.0.5)
    Disrupts-locked f c m (call reboot k) (rule, rest) d = (rule.1, rule.2)
    Disrupts-locked f c m _ h d = absurd d

    -- The lease of an owner that has not expired.
    IsUnexpired-IsOwner :
        (s : System api lock) (i : Text) (v : LockAnnotationValue)
        → s.pc i ≡ owner v
        → IsUnexpired s.now (s.pc i)
        → IsOwner api lock s i
    IsUnexpired-IsOwner s i v at live = (v, at, subst (IsUnexpired s.now) at live)

    IsDisrupting-IsOwner :
        (s : Fleet api lock flags contains)
        → Inv api lock flags contains s
        → (is : List Text) → All (IsDisrupting s) is
        → All (IsOwner api lock s.locks) is
    IsDisrupting-IsOwner s inv [] h = tt
    IsDisrupting-IsOwner s inv (i ∷ is) ((d, live), h) =
        let fits = inv.fits i in
        let (locked, untried) =
          Disrupts-locked (flags i) (contains i) (seen api lock flags contains i (s.tick i))
            (s.tick i).left fits.keeps d in
        let (v, at) = fits.owns locked untried in
        (IsUnexpired-IsOwner s.locks i v at live, IsDisrupting-IsOwner s inv is h)

    pub disruptions-le-max :
        (s : Fleet api lock flags contains) (is : List Text)
        → FleetReach api lock flags contains s
        → Distinct is
        → All (IsDisrupting s) is
        → length is ≤ lock.max_owners
    disruptions-le-max s is r d h =
        let inv = FleetReach-Inv api lock flags contains r in
        owners-le-max api lock s.locks is inv.reach d (IsDisrupting-IsOwner s inv is h)

module _ (codec : Codec MultiLockAnnotationValue) (generic : Text → GenericLock) where
  module _ (namespace name key : Text) (m : ℕ) (api : ApiServer) where
    -- Of nodes that run the second loop over a lock for `m + 1` owners, at most `m + 1` at a time are
    -- about to cordon, drain or reboot while they rely on no expired lease: whatever the interleaving
    -- of their calls, the replies, the conflicts and the restarts.
    pub disruptions-le-concurrency :
        (flags : Text → Flags) (contains : Text → ℕ → Bool)
        (s : Fleet api (nodes codec generic namespace name key m) flags contains) (is : List Text)
        → FleetReach api (nodes codec generic namespace name key m) flags contains s
        → Distinct is
        → All (IsDisrupting api (nodes codec generic namespace name key m) flags contains s) is
        → length is ≤ suc m
    disruptions-le-concurrency flags contains s is r d h =
        disruptions-le-max api (nodes codec generic namespace name key m) flags contains s is r d h
