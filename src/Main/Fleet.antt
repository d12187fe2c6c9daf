-- ===== src/Main/Fleet.antt =====
-- Nodes that run the second loop of `rebootAsRequired` in cmd/kured/main.go, a call at a time and
-- interleaved, over the lock that they share: the programs of Main/Loop over the nodes of
-- DaemonSetLock/Cluster. A call of the lock takes as many steps there as it likes, and returns when
-- they allow its reply.
pub mod Inv
pub mod Exclusion
use kured.Common.{ℕ, ◌≡◌, Bool, true, false, ◌||◌, List, [], ◌∷◌, Text, text_eq, if◌then◌else◌}
use kured.DaemonSetLock.Value.{NodeMeta, LockAnnotationValue}
use kured.DaemonSetLock.Api.{ApiServer}
use kured.DaemonSetLock.Reply.{HoldingReply, AcquireReply}
use kured.DaemonSetLock.Cluster.{
  Pc, idle, owner, leaving, set_pc, Discipline, System, Step, Reach, start,
}
use kured.Kube.{Call, Reply, lock_holding, lock_acquire, lock_release}
use kured.Kube.Program.{Program, ret, call}
use kured.Kube.Trace.{Event, event}
use kured.Taints.{Taint}
use kured.Main.Flags.{Flags}
use kured.Main.Loop.{reboot_tick}

-- A tick of a node: the calls it has made, the latest first, and what is left of it.
pub record Tick : Type 0 where
  pub made : List Event
  pub left : Program Taint

abbrev pub set_tick : (Text → Tick) → Text → Tick → Text → Tick
set_tick tick i t j = if text_eq i j then t else tick j

abbrev pub is_lock_call : Call → Bool
is_lock_call lock_holding = true
is_lock_call (lock_acquire m) = true
is_lock_call lock_release = true
is_lock_call _ = false

module _ (api : ApiServer) (lock : Discipline) where
  module _ (flags : Text → Flags) (contains : Text → ℕ → Bool) where
    pub record Fleet : Type 0 where
      pub locks : System api lock
      pub tick : Text → Tick

    abbrev pub begin : Text → Taint → Tick
    begin i t = record { made = []; left = reboot_tick (flags i) (contains i) t }

    -- After a call.
    abbrev pub go_on : Tick → (c : Call) → Reply c → (Reply c → Program Taint) → Tick
    go_on t c r k = record { made = event c r ∷ t.made; left = k r }

    -- The owners of the lock stay owners.
    abbrev pub KeepsOwners : System api lock → System api lock → Type 0
    KeepsOwners s t = (i : Text) (v : LockAnnotationValue) → s.pc i ≡ owner v → t.pc i ≡ owner v

    pub data FleetStep (s : Fleet) : Fleet → Type 0 where
      -- A step of the lock in which no node lets go of it.
      inside :
          {t : System api lock}
          → Step api lock s.locks t
          → KeepsOwners s.locks t
          → FleetStep s (record s { locks = t })
      -- A call that is not one of the lock.
      other_call :
          (i : Text) (c : Call) (r : Reply c) {k : Reply c → Program Taint}
          → (s.tick i).left ≡ call c k
          → is_lock_call c ≡ false
          → FleetStep s (record s { tick = set_tick s.tick i (go_on (s.tick i) c r k) })
      -- `Holding` and `Acquire` say that the node has the lock only if it is an owner.
      holds :
          (i : Text) (r : HoldingReply) {v : LockAnnotationValue} {k : HoldingReply → Program Taint}
          → (s.tick i).left ≡ call lock_holding k
          → s.locks.pc i ≡ owner v
          → FleetStep s (record s { tick = set_tick s.tick i (go_on (s.tick i) lock_holding r k) })
      holds_not :
          (i : Text) (r : HoldingReply) {k : HoldingReply → Program Taint}
          → (s.tick i).left ≡ call lock_holding k
          → r.holding ≡ false
          → FleetStep s (record s { tick = set_tick s.tick i (go_on (s.tick i) lock_holding r k) })
      acquires :
          (i : Text) (m : NodeMeta) (r : AcquireReply) {v : LockAnnotationValue}
          {k : AcquireReply → Program Taint}
          → (s.tick i).left ≡ call (lock_acquire m) k
          → s.locks.pc i ≡ owner v
          → FleetStep s
              (record s { tick = set_tick s.tick i (go_on (s.tick i) (lock_acquire m) r k) })
      acquires_not :
          (i : Text) (m : NodeMeta) (r : AcquireReply) {k : AcquireReply → Program Taint}
          → (s.tick i).left ≡ call (lock_acquire m) k
          → r.acquired ≡ false
          → FleetStep s
              (record s { tick = set_tick s.tick i (go_on (s.tick i) (lock_acquire m) r k) })
      -- From the start of `Release` on the node does not rely on the lock.
      releases :
          (i : Text) (r : Bool) {t : System api lock} {k : Bool → Program Taint}
          → (s.tick i).left ≡ call lock_release k
          → Step api lock s.locks t
          → ((j : Text) → t.pc j ≡ set_pc s.locks.pc i leaving j)
          → FleetStep s
              (record { locks = t; tick = set_tick s.tick i (go_on (s.tick i) lock_release r k) })
      -- The next tick, and a process that starts again.
      next_tick :
          (i : Text) (t : Taint)
          → (s.tick i).left ≡ ret t
          → FleetStep s (record s { tick = set_tick s.tick i (begin i t) })
      starts_again :
          (i : Text) (t : Taint) {s' : System api lock}
          → Step api lock s.locks s'
          → ((j : Text) → s'.pc j ≡ set_pc s.locks.pc i idle j)
          → FleetStep s (record { locks = s'; tick = set_tick s.tick i (begin i t) })

    pub data FleetReach : Fleet → Type 0 where
      begun :
          {s : System api lock} (taint : Text → Taint)
          → Reach api lock s
          → FleetReach (record { locks = s; tick = λ i. begin i (taint i) })
      stepped : {s t : Fleet} → FleetReach s → FleetStep s t → FleetReach t
