-- ===== src/Main/Examples.antt =====
-- Concrete flags and a concrete world for the loops of cmd/kured/main.go.
use kured.Common.{ℕ, ◌≡◌, refl, Bool, true, false, none, some, [], ◌∷◌, codes, text_eq, pos, ltb}
use kured.DaemonSetLock.Reply.{not_holding, timed_out}
use kured.Kube.{
  Node, reboot, reboot_required, is_blocked, lock_holding, lock_acquire, lock_release, get_node,
  drain_node, cordon_or_uncordon, patch_taints, patch_annotations, remove_annotation, patch_labels,
  send, sleep, time_now, time_now_text,
}
use kured.Kube.Program.{waits}
use kured.Kube.Trace.{stopped, World, exec, Obeys, EndsIn}
use kured.Taints.{Taint}
use kured.Common.{inl, ◌≢◌}
use kured.DaemonSetLock.Value.{no_lock}
use kured.Kube.Trace.{done}
use kured.Common.{◌↔◌, List, Text}
use kured.Kube.Program.{panics}
use kured.Main.Labels.{update_node_labels, validate_node_labels}
use kured.Main.Labels.Keys.{well_formed, update_node_labels-well_formed}
use kured.Main.Notification.{validate_notification_url}
use kured.Main.Flags.{Flags}
use kured.Main.Loop.{reboot_tick, startup_tick}
use kured.Main.Startup.{startup_monitor, LeavesBy}
use kured.Main.Startup.Safety.{startup_tick-Obeys}
use kured.DaemonSetLock.Api.{DaemonSet, ApiServer, failed, updated, conflict}
use kured.DaemonSetLock.Retry.{Turn}
use kured.DaemonSetLock.Single.{holding}

abbrev pub flags : Flags
flags = record {
  node_id = codes "a";
  force_reboot = false;
  drain_delay = pos 0;
  reboot_delay = pos 5;
  notify_url = [];
  message_template_drain = codes "Draining node %s";
  message_template_reboot = codes "Rebooting node %s";
  message_template_uncordon = codes "Node %s rebooted & uncordoned successfully!";
  pre_reboot_node_labels = none;
  post_reboot_node_labels = none;
  annotate_nodes = false;
  prefer_no_schedule_taint_name = codes "reboot";
  blockers = 0 ∷ 1 ∷ [];
}

abbrev pub node : Node
node = record { name = codes "a"; unschedulable = false; taints = []; annotations = none }

-- A reboot is required, nothing blocks, the lock is free, and every call succeeds.
abbrev pub all_well : World
all_well h (get_node i) = some node
all_well h lock_holding = not_holding none
all_well h (lock_acquire m) = record { acquired = true; holder = []; error = none }
all_well h (is_blocked k) = false
all_well h (patch_taints i p) = true
all_well h (patch_annotations n) = true
all_well h (remove_annotation i path) = true
all_well h (patch_labels i l) = true
all_well h (cordon_or_uncordon n b) = true
all_well h (drain_node i) = true
all_well h (send u t n) = true
all_well h (sleep d) = tt
all_well h reboot_required = true
all_well h time_now = 12
all_well h time_now_text = []
all_well h lock_release = true
all_well h reboot = true

abbrev pub noon : ℕ → Bool
noon t = ltb 11 t

abbrev pub taint : Taint
taint = record { node_id = codes "a"; taint_name = codes "reboot"; effect = []; exists = false }

-- The tick reboots, and waits.
ends_rebooted : (exec all_well [] (reboot_tick flags noon taint)).0 ≡ stopped waits
unfolding exec reboot_tick text_eq
ends_rebooted = refl

-- The node comes back from its reboot with the lock.
abbrev pub after_reboot : World
after_reboot h lock_holding = record { holding = true; data_ = no_lock; error = none }
after_reboot h c = all_well h c

startup_tick-Obeys_example :
    Obeys startup_monitor (exec after_reboot [] (startup_tick flags)).1
    × EndsIn startup_monitor LeavesBy (exec after_reboot [] (startup_tick flags))
startup_tick-Obeys_example = startup_tick-Obeys flags after_reboot

-- The tick ends the loop.
ends_released : (exec after_reboot [] (startup_tick flags)).0 ≡ done true
unfolding exec startup_tick text_eq
ends_released = refl

nothing_read : (ds : DaemonSet) → none ≢ some ds
nothing_read ds e = cc

failed-ne-updated : failed ≢ updated
failed-ne-updated e = cc

failed-ne-conflict : failed ≢ conflict
failed-ne-conflict e = cc

-- A DaemonSet that cannot be read while node a holds the lock.
abbrev unreachable : ApiServer
unreachable = record {
  State = DaemonSet;
  stored = λ s. s;
  get = λ s. none;
  update = λ ds s. (failed, s);
  get_stored = λ s ds e. absurd (nothing_read ds e);
  update_updated = λ ds s e. absurd (failed-ne-updated e);
  update_conflict = λ ds s e. absurd (failed-ne-conflict e);
  update_failed = λ ds s e. inl refl;
}

abbrev outage_turn : Turn unreachable
outage_turn = record { attempts = (λ s. s) ∷ (λ s. s) ∷ []; between = λ s. s; now = 5 }

abbrev outage : World
outage h lock_holding = not_holding (some timed_out)
outage h c = all_well h c

-- The second label has no equals sign.
abbrev labels : List Text
labels = codes "a=b" ∷ codes "c" ∷ []

update_node_labels-well_formed_example :
    ((exec all_well [] (update_node_labels node labels)).0 ≡ stopped panics)
    ↔ (well_formed labels ≡ false)
update_node_labels-well_formed_example = update_node_labels-well_formed all_well [] node labels

-- The check accepts them all the same.
accepted : validate_node_labels labels (codes "c" ∷ codes "a=d" ∷ []) ≡ true
unfolding validate_node_labels text_eq
accepted = refl

slack_url :
    validate_notification_url (λ url. some (codes "/services/A/B/C")) [] (codes "https://h")
    ≡ codes "slack://A/B/C"
unfolding validate_notification_url text_eq
slack_url = refl
