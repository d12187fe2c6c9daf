-- ===== src/Main/FleetExamples.antt =====
-- A node of Main/Fleet that takes the lock and is about to cordon itself.
use kured.Common.{
  ℕ, ◌≤◌, ◌≢◌, refl, inl, inr, Bool, true, none, some, [], ◌∷◌, Text, text_eq, lookup, insert,
  length, arith, Bool-cases,
}
use kured.DaemonSetLock.Value.{LockAnnotationValue, ttl_expired}
use kured.DaemonSetLock.Api.{DaemonSet}
use kured.DaemonSetLock.Reply.{AcquireReply, not_holding}
use kured.DaemonSetLock.Cluster.{
  Pc, idle, acquiring, owner, set_pc, acquire_read, acquire_write, start,
}
use kured.DaemonSetLock.Multi.{acquire_decide}
use kured.DaemonSetLock.Examples.{free}
use kured.DaemonSetLock.Examples.Server.{
  server, node_a, schedulable, node_lock_annotation, kube_system, ds_name, one_minute,
}
use kured.DaemonSetLock.Examples.MultiCodec.{multi_codec, fleet}
use kured.Kube.{reboot_required, get_node, time_now}
use kured.Main.Flags.{Flags}
use kured.Main.Loop.{reboot_tick}
use kured.Main.Fleet.{Fleet, FleetReach, begun, stepped, inside, other_call, holds_not, acquires}
use kured.Main.Fleet.Exclusion.{IsDisrupting, disruptions-le-concurrency}
use kured.Main.Examples.{flags, noon, node, taint}

abbrev unblocked : Text → Flags
unblocked i = record flags { blockers = [] }

abbrev at_noon : Text → ℕ → Bool
at_noon i = noon

abbrev granted : AcquireReply
granted = record { acquired = true; holder = []; error = none }

idle-ne-owner : (v : LockAnnotationValue) → idle ≢ owner v
idle-ne-owner v e = ground arith

acquiring-ne-owner :
    (pc : Text → Pc) (i j : Text) (p : Pc) (v : LockAnnotationValue)
    → ((k : Text) → pc k ≢ owner v)
    → p ≢ owner v
    → set_pc pc i p j ≢ owner v
acquiring-ne-owner pc i j p v others this e = elim (Bool-cases (text_eq i j)) [
  | inl x ↦ this (rw x at e)
  | inr x ↦ others j (rw x at e)
]

record Reached : Type 0 where
  last : Fleet server fleet unblocked at_noon
  reach : FleetReach server fleet unblocked at_noon last

ready : Reached
unfolding reboot_tick acquire_decide text_eq lookup insert
ready = record {
  last = _;
  reach =
      stepped
        (stepped
          (stepped
            (stepped (begun (λ i. taint) (start free 1000 (omega arith)))
              (other_call node_a time_now 12 refl refl))
            (other_call node_a reboot_required true refl refl))
          (other_call node_a (get_node node_a) (some node) refl refl))
        (holds_not node_a (not_holding none) refl refl);
}

cordoning : Reached
unfolding ready reboot_tick acquire_decide text_eq lookup insert
cordoning = record {
  last = _;
  reach =
      stepped
        (stepped
          (stepped ready.reach (
            inside (acquire_read node_a schedulable refl refl refl)
              (λ i v e. absurd (idle-ne-owner v e))))
          (inside (acquire_write node_a refl) (λ i v e. absurd (
            acquiring-ne-owner (λ j. idle) node_a i _ v (λ j. idle-ne-owner v) (acquiring_ne v)
              e))))
        (acquires node_a schedulable granted refl refl);
}
  where
    acquiring_ne :
        {ds : DaemonSet} {l : LockAnnotationValue} (v : LockAnnotationValue)
        → acquiring ds l ≢ owner v
    acquiring_ne v e = ground arith

cordons : IsDisrupting server fleet unblocked at_noon cordoning.last node_a
unfolding cordoning ready reboot_tick text_eq ttl_expired
cordons = (tt, refl)

disruptions-le-concurrency_example : length (node_a ∷ []) ≤ 2
disruptions-le-concurrency_example =
    disruptions-le-concurrency multi_codec (λ i. one_minute) kube_system ds_name
      node_lock_annotation 1 server unblocked at_noon cordoning.last (node_a ∷ []) cordoning.reach
      (tt, tt) (cordons, tt)
