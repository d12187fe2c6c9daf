-- ===== src/Main/Progress/Drain.antt =====
-- The drain and the reboot of a tick of the second loop of `rebootAsRequired` in cmd/kured/main.go, with
-- replies that let it go on.
use kured.Common.{ℕ, ◌≡◌, ◌⊎◌, refl, Bool, true, false, ◌||◌, arith, if◌then◌else◌, is_positive}
use kured.Kube.{
  Call, Reply, Node, get_node, patch_annotations, cordon_or_uncordon, drain_node, reboot_required,
  is_blocked, time_now, lock_acquire, reboot, sleep,
}
use kured.Kube.Program.{Program, ret, halt, fatal, waits, ask, ◌>>◌}
use kured.Kube.Trace.{Ending, stopped}
use kured.Kube.Progress.{Leads, Then, Leads-bind}
use kured.Taints.{Taint}
use kured.Main.Flags.{Flags}
use kured.Main.Nodes.{notify, drain, cordon_and_drain}
use kured.Main.Loop.{reboot_and_wait, trigger_reboot, give_up, drain_and_reboot}
use kured.Main.Progress.{IsFound, labels_ok, labels-Leads, sleep-Leads, notify-Leads}

-- The reply to a call of a tick that may reboot: it is time, a reboot is required, nothing blocks, the
-- lock is free, and no call fails; a drain or a cordon may, if the reboot is forced.
abbrev pub Helps : Flags → (ℕ → Bool) → (c : Call) → Reply c → Type 0
Helps f contains (get_node i) r = IsFound f.annotate_nodes r
Helps f contains (patch_annotations n) r = r ≡ true
Helps f contains (cordon_or_uncordon n b) r = (r ≡ true) ⊎ (f.force_reboot ≡ true)
Helps f contains (drain_node i) r = (r ≡ true) ⊎ (f.force_reboot ≡ true)
Helps f contains time_now r = contains r ≡ true
Helps f contains reboot_required r = r ≡ true
Helps f contains (is_blocked k) r = r ≡ false
Helps f contains (lock_acquire m) r = r.acquired ≡ true
Helps f contains reboot r = r ≡ true
Helps f contains _ r = Unit

abbrev pub Waiting : {A : Type 0} → Ending A → Type 0
Waiting e = e ≡ stopped waits

module _ (f : Flags) (contains : ℕ → Bool) where
  abbrev pub Waits : {A : Type 0} → Program A → Type 0
  Waits = Leads (Helps f contains) Waiting

  -- The second loop, from the end to the start.
  trigger_reboot-Waits : Waits (trigger_reboot f)
  unfolding trigger_reboot
  trigger_reboot-Waits =
      sleep-Leads (Helps f contains) Waiting f.reboot_delay
        (notify f f.message_template_reboot f.node_id >> reboot_and_wait f)
        (notify-Leads (Helps f contains) Waiting f f.message_template_reboot f.node_id
          (reboot_and_wait f) rebooted)
    where
      rebooted : (r : Bool) → r ≡ true → Waits {A = Taint} (if r then halt waits else halt fatal)
      rebooted true g = refl
      rebooted false g = absurd (ground arith)

  -- What the drain has to come to, for the tick to wait for its reboot.
  abbrev AfterDrain : Taint → Node → Ending Bool → Type 0
  AfterDrain t node =
      Then (Helps f contains) Waiting
        (λ drained. if drained || f.force_reboot then trigger_reboot f else give_up f t node)

  drain-Leads :
      (t : Taint) (node : Node)
      → labels_ok f.pre_reboot_node_labels ≡ true
      → Leads (Helps f contains) (AfterDrain t node) (drain f node)
  unfolding drain
  drain-Leads t node ok =
      labels-Leads (Helps f contains) (AfterDrain t node) node f.pre_reboot_node_labels
        ((if is_positive f.drain_delay then ask (sleep f.drain_delay) else ret tt)
          >> (notify f f.message_template_drain node.name >> cordon_and_drain node))
        ok
        (sleep-Leads (Helps f contains) (AfterDrain t node) f.drain_delay
          (notify f f.message_template_drain node.name >> cordon_and_drain node)
          (notify-Leads (Helps f contains) (AfterDrain t node) f f.message_template_drain node.name
            (cordon_and_drain node) cordoned))
    where
      forced :
          (b c : Bool)
          → (b ≡ true) ⊎ (c ≡ true)
          → Waits (if b || c then trigger_reboot f else give_up f t node)
      forced true c e = trigger_reboot-Waits
      forced false true e = trigger_reboot-Waits
      forced false false e = absurd (ground arith)

      cordoned :
          (r : Bool)
          → (r ≡ true) ⊎ (f.force_reboot ≡ true)
          → Leads
              (Helps f contains)
              (AfterDrain t node)
              (if r then ask (drain_node node.name) else ret false)
      cordoned true g = λ b. forced b f.force_reboot
      cordoned false g = forced false f.force_reboot g

  pub drain_and_reboot-Waits :
      (t : Taint) (node : Node)
      → labels_ok f.pre_reboot_node_labels ≡ true
      → Waits (drain_and_reboot f t node)
  unfolding drain_and_reboot
  drain_and_reboot-Waits t node ok =
      Leads-bind (Helps f contains) Waiting
        (λ drained. if drained || f.force_reboot then trigger_reboot f else give_up f t node)
        (drain f node) (drain-Leads t node ok)
