-- ===== src/Main/Progress.antt =====
-- cmd/kured/main.go: the loops of `rebootAsRequired` get where they mean to when their calls succeed.
-- What both loops need: the calls whose replies do not matter.
pub mod Drain
pub mod Reboot
pub mod Restore
use kured.Common.{
  ℕ, ◌≡◌, ◌≢◌, ◌⊎◌, inl, inr, refl, sym, subst, Bool, true, false, not, ◌&&◌, ◌||◌, Option, none,
  some, List, [], ◌∷◌, Text, text_eq, ℤ, arith, Bool-cases, Option-cases, if◌then◌else◌,
  is_positive, is_some, insert,
}
use kured.DaemonSetLock.Reply.{HoldingReply}
use kured.Kube.{
  Call, Reply, Node, get_node, patch_annotations, remove_annotation, cordon_or_uncordon, drain_node,
  reboot_required, is_blocked, time_now, lock_holding, lock_acquire, lock_release, reboot, sleep,
  time_now_text,
}
use kured.Kube.Program.{Program, ret, halt, call, fatal, panics, waits, ask, ◌>>=◌, ◌>>◌}
use kured.Kube.Trace.{Event, event, Ending, done, stopped, World, exec, watch, EndsIn}
use kured.Kube.Progress.{IsGood, Leads, Leads-exec, Then, Leads-bind}
use kured.Taints.{Taint, enable, disable}
use kured.Blockers.{reboot_blocked}
use kured.Main.Flags.{Flags, reboot_in_progress_annotation}
use kured.Main.Startup.{show, startup_monitor, LeavesBy, IsRestored}
use kured.Main.Startup.Safety.{startup_tick-Obeys}
use kured.Main.Status.{tick_monitor, GoesOn}
use kured.Main.Labels.{update_node_labels, labels_map, patch_node_labels}
use kured.Main.Labels.Keys.{well_formed, labels_map-well_formed}
use kured.Main.Nodes.{
  notify, drain, cordon_and_drain, uncordon, update_labels, annotate_found, patch_node, write_all,
  add_node_annotations, delete_node_annotation,
}
use kured.Main.Loop.{
  in_annotations, reboot_annotations, mark_reboot, reboot_and_wait, trigger_reboot, give_up,
  drain_and_reboot, acquire_lock, take_lock, unless_blocked, with_node, when_required, reboot_tick,
  startup_uncordon, unannotate, startup_unannotate, startup_node, startup_tick,
}

-- A node of that name, with annotations where kured is to add its own.
abbrev IsFound : Bool → Option Node → Type 0
IsFound annotates none = ⊥
IsFound annotates (some node) = (annotates ≡ false) ⊎ (node.annotations ≢ none)

-- No label of the flag lacks its equals sign.
abbrev pub labels_ok : Option (List Text) → Bool
labels_ok none = true
labels_ok (some labels) = well_formed labels

-- Steps whose replies do not matter.
module _ (Good : (c : Call) → Reply c → Type 0) {A : Type 0} (Q : Ending A → Type 0) where
  pub labels-Leads :
      (node : Node) (l : Option (List Text)) (p : Program A)
      → labels_ok l ≡ true
      → Leads Good Q p
      → Leads Good Q (update_labels node l >> p)
  unfolding update_node_labels
  labels-Leads node none p ok h = h
  labels-Leads node (some l) p ok h = elim (Option-cases (labels_map l [])) [
    | inl bad ↦ absurd (ground (arith, labels_map-well_formed l []))
    | inr (m, made) ↦ rw made (λ r g. h)
  ]

  pub sleep-Leads :
      (d : ℤ) (p : Program A)
      → Leads Good Q p
      → Leads Good Q ((if is_positive d then ask (sleep d) else ret tt) >> p)
  sleep-Leads d p h = elim (Bool-cases (is_positive d)) [ inl e ↦ rw e (λ r g. h) | inr e ↦ rw e h ]

  pub notify-Leads :
      (f : Flags) (template node : Text) (p : Program A)
      → Leads Good Q p
      → Leads Good Q (notify f template node >> p)
  notify-Leads f template node p h = elim (Bool-cases (text_eq f.notify_url [])) [
    | inl e ↦ rw e h
    | inr e ↦ rw e (λ r g. h)
  ]
