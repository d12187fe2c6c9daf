-- ===== src/Main/Startup.antt =====
-- The first loop of `rebootAsRequired` in cmd/kured/main.go, which runs after a reboot: the rules of a
-- tick, as a monitor of its calls that does not look at the code.
pub mod Safety
use kured.Common.{
  ◌≡◌, ◌⊎◌, inl, inr, refl, Bool, true, false, not, Option, none, some, List, [], Text, Bool-cases,
  if◌then◌else◌, text_eq, ◌∙◌,
}
use kured.DaemonSetLock.Reply.{HoldingReply}
use kured.Kube.{
  Node, Call, Reply, get_node, patch_taints, patch_annotations, remove_annotation,
  cordon_or_uncordon, drain_node, reboot_required, is_blocked, time_now, lock_holding, lock_acquire,
  lock_release, reboot,
}
use kured.Kube.Program.{Stop, Program, ret, halt, fatal, waits, ask, ◌>>=◌, ◌>>◌}
use kured.Kube.Trace.{Monitor, Keeps, Keeps-bind, Keeps-exec, World, exec, Obeys, EndsIn}
use kured.Main.Flags.{Flags, reboot_in_progress_annotation}
use kured.Main.Labels.{update_node_labels, labels_map, patch_node_labels}
use kured.Main.Nodes.{notify, uncordon, update_labels, delete_node_annotation}
use kured.Main.Loop.{
  startup_uncordon, startup_unannotate, startup_node, startup_tick, unannotate, in_annotations,
}

-- What the replies have shown: the lock, the state of the node before kured, and what was done.
pub record Startup : Type 0 where
  pub holding : Bool
  pub was_unschedulable : Bool
  pub uncordoned : Bool
  pub required : Bool  -- true until the sentinel has said that no reboot is required
  pub unannotate_failed : Bool
  pub released : Bool

abbrev pub nothing_shown : Startup
nothing_shown = record {
  holding = false;
  was_unschedulable = false;
  uncordoned = false;
  required = true;
  unannotate_failed = false;
  released = false;
}

abbrev pub show : Startup → (c : Call) → Reply c → Startup
show s lock_holding r = record nothing_shown {  -- a tick begins
  holding = r.holding;
  was_unschedulable = r.data_.metadata.unschedulable;
}
show s (cordon_or_uncordon n b) r = record s { uncordoned = r }
show s reboot_required r = record s { required = r }
show s (remove_annotation i path) r = record s { unannotate_failed = not r }
show s lock_release r = record s { released = r }
show s _ r = s

-- The node is put back as it was before its reboot: schedulable, unless it was not.
abbrev pub IsRestored : Startup → Type 0
IsRestored s = (s.was_unschedulable ≡ true) ⊎ (s.uncordoned ≡ true)

-- When a call may be made; the calls that are ruled out are those of the second loop.
abbrev pub May : Startup → Call → Type 0
May s (get_node i) = s.holding ≡ true
May s (cordon_or_uncordon n true) = ⊥
May s (cordon_or_uncordon n false) = (s.holding ≡ true) × (s.was_unschedulable ≡ false)
May s reboot_required = (s.holding ≡ true) × IsRestored s
May s (remove_annotation i path) = (s.holding ≡ true) × IsRestored s × (s.required ≡ false)
May s lock_release = (s.holding ≡ true) × IsRestored s × (s.unannotate_failed ≡ false)
May s (drain_node i) = ⊥
May s (lock_acquire m) = ⊥
May s reboot = ⊥
May s time_now = ⊥
May s (is_blocked k) = ⊥
May s (patch_taints i p) = ⊥
May s (patch_annotations n) = ⊥
May s _ = Unit

abbrev pub CannotWait : Startup → Stop → Type 0
CannotWait s waits = ⊥
CannotWait s _ = Unit

abbrev pub startup_monitor : Monitor
startup_monitor = record {
  S = Startup;
  start = nothing_shown;
  observe = show;
  Rule = May;
  StopRule = CannotWait;
}

-- The loop ends if the lock is not held, or once it has been released after the node was restored; it
-- goes round again only while the lock is held.
abbrev pub LeavesBy : Startup → Bool → Type 0
LeavesBy s true = (s.holding ≡ false) ⊎ ((s.released ≡ true) × IsRestored s)
LeavesBy s false = (s.holding ≡ true) × (s.released ≡ false)
