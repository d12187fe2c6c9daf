-- ===== src/Main/Loop.antt =====
-- cmd/kured/main.go: `rebootAsRequired`, a tick at a time. `startup_tick` is the body of the first
-- loop, `reboot_tick` that of the second.
use kured.Common.{
  ℕ, Bool, true, false, not, ◌&&◌, ◌||◌, Option, none, some, List, [], ◌∷◌, Text, lookup, is_some,
  is_positive, if◌then◌else◌,
}
use kured.DaemonSetLock.Reply.{HoldingReply}
use kured.Kube.{
  Node, get_node, sleep, reboot_required, time_now, time_now_text, lock_holding, lock_acquire,
  lock_release, reboot,
}
use kured.Kube.Program.{Program, ret, halt, fatal, waits, ask, ◌>>=◌, ◌>>◌}
use kured.Taints.{Taint, new, enable, disable}
use kured.Blockers.{reboot_blocked}
use kured.Main.Flags.{
  Flags, reboot_in_progress_annotation, most_recent_reboot_needed_annotation,
  taint_effect_prefer_no_schedule,
}
use kured.Main.Nodes.{notify, drain, uncordon, add_node_annotations, delete_node_annotation}

-- `_, ok := node.Annotations[key]`.
abbrev pub in_annotations : Text → Option (List (Text × Text)) → Bool
in_annotations key none = false
in_annotations key (some m) = is_some (lookup key m)

module _ (f : Flags) where
  -- The first loop: true is `break`, false is `continue`.
  unfoldable pub startup_uncordon : HoldingReply → Node → Program Bool
  unfolding uncordon
  startup_uncordon held node =
      if not held.data_.metadata.unschedulable
      then (do
        uncordoned ← uncordon f node
        if uncordoned
            then notify f f.message_template_uncordon f.node_id >> ret true
            else ret false)
      else ret true

  abbrev pub unannotate : Node → Bool → Program Bool
  unannotate node required =
      if not required && in_annotations reboot_in_progress_annotation node.annotations
      then delete_node_annotation f.node_id reboot_in_progress_annotation
      else ret true

  unfoldable pub startup_unannotate : Node → Program Bool
  unfolding delete_node_annotation
  startup_unannotate node =
      if f.annotate_nodes then ask reboot_required >>= unannotate node else ret true

  abbrev pub startup_node : HoldingReply → Option Node → Program Bool
  startup_node held none = ret false
  startup_node held (some node) = do
    uncordoned ← startup_uncordon held node
    if uncordoned
        then (do
          unannotated ← startup_unannotate node
          if unannotated then ask lock_release else ret false)
        else ret false

  unfoldable pub startup_tick : Program Bool
  unfolding startup_uncordon startup_unannotate
  startup_tick = do
    held ← ask lock_holding
    if held.holding then ask (get_node f.node_id) >>= startup_node held else ret true

  -- Between the loops.
  unfoldable pub startup_taint : Program Taint
  unfolding new disable
  startup_taint = do
    t ← new f.node_id f.prefer_no_schedule_taint_name taint_effect_prefer_no_schedule
    required ← ask reboot_required
    if not required then disable t else ret t

  -- The second loop, from the end to the start. It goes on with the taint that is returned.
  abbrev pub reboot_and_wait : Program Taint
  reboot_and_wait = do rebooted ← ask reboot; if rebooted then halt waits else halt fatal

  unfoldable pub trigger_reboot : Program Taint
  trigger_reboot = do
    if is_positive f.reboot_delay then ask (sleep f.reboot_delay) else ret tt
    notify f f.message_template_reboot f.node_id
    reboot_and_wait

  unfoldable pub give_up : Taint → Node → Program Taint
  unfolding uncordon
  give_up t node = do released ← ask lock_release; uncordoned ← uncordon f node; ret t

  unfoldable pub drain_and_reboot : Taint → Node → Program Taint
  unfolding drain trigger_reboot give_up
  drain_and_reboot t node = do
    drained ← drain f node
    if drained || f.force_reboot then trigger_reboot else give_up t node

  abbrev pub acquire_lock : Taint → Node → Program Taint
  acquire_lock t node = do
    r ← ask (lock_acquire (record { unschedulable = node.unschedulable }))
    if r.acquired then drain_and_reboot t node else enable t

  unfoldable pub take_lock : Taint → Node → Program Taint
  unfolding drain_and_reboot enable
  take_lock t node = do
    held ← ask lock_holding
    if held.holding then drain_and_reboot t node else acquire_lock t node

  abbrev pub reboot_annotations : Text → List (Text × Text)
  reboot_annotations now =
      (reboot_in_progress_annotation, now) ∷ (most_recent_reboot_needed_annotation, now) ∷ []

  unfoldable pub mark_reboot : Node → Program Bool
  unfolding add_node_annotations
  mark_reboot node =
      if f.annotate_nodes && not (in_annotations reboot_in_progress_annotation node.annotations)
      then (do now ← ask time_now_text; add_node_annotations f.node_id (reboot_annotations now))
      else ret true

  unfoldable pub unless_blocked : Taint → Node → Program Taint
  unfolding reboot_blocked take_lock
  unless_blocked t node = do
    blocked ← reboot_blocked f.blockers
    if blocked then ret t else take_lock t node

  abbrev pub with_node : Taint → Option Node → Program Taint
  with_node t none = halt fatal
  with_node t (some node) = do
    marked ← mark_reboot node
    if marked then unless_blocked t node else ret t

  unfoldable pub when_required : Taint → Program Taint
  unfolding mark_reboot unless_blocked
  when_required t = ask (get_node f.node_id) >>= with_node t

  unfoldable pub reboot_tick : (ℕ → Bool) → Taint → Program Taint
  unfolding when_required disable
  reboot_tick contains t = do
    now ← ask time_now
    if contains now
        then (do required ← ask reboot_required; if required then when_required t else disable t)
        else disable t
