-- ===== src/Main/Safety.antt =====
-- The second loop of `rebootAsRequired` in cmd/kured/main.go keeps the rules of Main/Status.
pub mod Steps
pub mod TaintSteps
use kured.Common.{
  ℕ, ◌≡◌, ◌≢◌, ◌⊎◌, inl, inr, refl, sym, ap, Bool, true, false, not, ◌&&◌, ◌||◌, Option, none, some,
  List, [], ◌∷◌, ◌++◌, Text, text_eq, text_eq_iff, arith, Bool-cases, if◌then◌else◌,
}
use kured.Kube.{Node, reboot_required}
use kured.Blockers.{reboot_blocked}
use kured.Kube.Program.{Program, ret, halt, fatal, waits, ask, ◌>>=◌, ◌>>◌}
use kured.Kube.Trace.{Keeps, Keeps-bind}
use kured.Taints.{Taint, enable, disable}
use kured.Main.Flags.{Flags}
use kured.Main.Nodes.{notify, drain, uncordon}
use kured.Main.Safety.Steps.{
  sleep-then, notify-then, drain-Keeps, uncordon-Keeps, mark_reboot-Keeps, reboot_blocked-Keeps,
}
use kured.Main.Safety.TaintSteps.{enable-Keeps, disable-Keeps}
use kured.Main.Loop.{
  reboot_and_wait, trigger_reboot, acquire_lock, give_up, drain_and_reboot, take_lock, mark_reboot,
  unless_blocked, with_node, when_required, reboot_tick,
}
use kured.Main.Status.{
  Status, nothing_seen, observe, IsClear, IsArmed, Rule, StopRule, tick_monitor, GoesOn,
}

module _ (f : Flags) (contains : ℕ → Bool) where
  abbrev Kept : Status → Program Taint → Type 0
  Kept = Keeps (tick_monitor f contains) (GoesOn f contains)

  trigger_reboot-Keeps :
      (s : Status)
      → IsClear f contains s
      → s.locked ≡ true
      → s.release_tried ≡ false
      → (s.drained ≡ true) ⊎ (f.force_reboot ≡ true)
      → Kept s (trigger_reboot f)
  unfolding trigger_reboot
  trigger_reboot-Keeps s clear locked kept drained =
      sleep-then f contains (GoesOn f contains) s f.reboot_delay
        (notify f f.message_template_reboot f.node_id >> reboot_and_wait f)
        (notify-then f contains (GoesOn f contains) s f.message_template_reboot f.node_id
          (reboot_and_wait f) ((clear, locked, kept, drained), triggered))
    where
      triggered :
          (r : Bool) → Kept (record s { rebooted = r }) (if r then halt waits else halt fatal)
      triggered true = refl
      triggered false = tt

  give_up-Keeps :
      (s : Status) (t : Taint) (node : Node)
      → IsArmed f contains s
      → s.failed ≡ true
      → f.force_reboot ≡ false
      → Kept s (give_up f t node)
  unfolding give_up
  give_up-Keeps s t node (clear, locked, undrained, unrefused, alive, kept) failed unforced = (
    (locked, failed, undrained, unforced),
    λ released.
        Keeps-bind (tick_monitor f contains) (GoesOn f contains) (λ ok. ret t) _ (uncordon f node)
          (uncordon-Keeps f contains _ _ node refl failed unforced (record {
            unlocked = λ h. refl;
            not_rebooted = alive;
            tainted = λ r. cc;
            untainted = λ out. ground arith;
          })),
  )

  drain_and_reboot-Keeps :
      (s : Status) (t : Taint) (node : Node)
      → IsArmed f contains s
      → Kept s (drain_and_reboot f t node)
  unfolding drain_and_reboot
  drain_and_reboot-Keeps s t node armed =
      Keeps-bind (tick_monitor f contains) (GoesOn f contains) _ s (drain f node)
        (drain-Keeps f contains _ s node armed failed drained)
    where
      drained :
          (s' : Status)
          → IsClear f contains s'
          → s'.locked ≡ true
          → s'.release_tried ≡ false
          → s'.drained ≡ true
          → Kept s' (trigger_reboot f)
      drained s' clear locked kept d = trigger_reboot-Keeps s' clear locked kept (inl d)

      forced :
          (s' : Status) (b : Bool)
          → IsArmed f contains s'
          → s'.failed ≡ true
          → f.force_reboot ≡ b
          → Kept s' (if b then trigger_reboot f else give_up f t node)
      forced s' true a bad e = trigger_reboot-Keeps s' a.0 a.1 a.5 (inr e)
      forced s' false a bad e = give_up-Keeps s' t node a bad e

      failed :
          (s' : Status)
          → IsArmed f contains s'
          → s'.failed ≡ true
          → Kept s' (if f.force_reboot then trigger_reboot f else give_up f t node)
      failed s' a bad = forced s' f.force_reboot a bad refl

  -- Ready for the lock: clear, and nothing asked of it.
  abbrev IsReady : Status → Type 0
  IsReady s =
      IsClear f contains s × (s.drained ≡ false) × (s.refused ≡ false) × (s.rebooted ≡ false) × (s.release_tried ≡ false)

  take_lock-Keeps : (s : Status) (t : Taint) (node : Node) → IsReady s → Kept s (take_lock f t node)
  unfolding take_lock
  take_lock-Keeps s t node (clear, undrained, unrefused, alive, kept) =
      (clear, λ held. asked held.holding)
    where
      tried :
          (r : Bool)
          → Kept
              (record s { locked = r; refused = not r })
              (if r then drain_and_reboot f t node else enable t)
      tried true = drain_and_reboot-Keeps _ t node (clear, refl, undrained, refl, alive, kept)
      tried false = enable-Keeps f contains (GoesOn f contains) _ t λ t' set. record {
        unlocked = λ h. absurd (ground arith);
        not_rebooted = alive;
        tainted = λ r. set;
        untainted = λ out. ground arith;
      }

      asked :
          (b : Bool)
          → Kept
              (record s { locked = b })
              (if b then drain_and_reboot f t node else acquire_lock f t node)
      asked true = drain_and_reboot-Keeps _ t node (clear, refl, undrained, unrefused, alive, kept)
      asked false = ((clear, refl), λ r. tried r.acquired)

  -- In the window, with a reboot required, and nothing asked yet.
  abbrev IsDue : Status → Type 0
  IsDue s =
      (s.in_window ≡ true)
      × (s.required ≡ true)
      × (s.asked ≡ [])
      × (s.blocked ≡ false)
      × (s.locked ≡ false)
      × (s.drained ≡ false)
      × (s.refused ≡ false)
      × (s.rebooted ≡ false)
      × (s.release_tried ≡ false)

  unless_blocked-Keeps :
      (s : Status) (t : Taint) (node : Node) → IsDue s → Kept s (unless_blocked f t node)
  unfolding unless_blocked
  unless_blocked-Keeps s t node
        (window, required, unasked, free, unlocked, undrained, unrefused, alive, kept) =
      Keeps-bind (tick_monitor f contains) (GoesOn f contains) _ s (reboot_blocked f.blockers) (
        reboot_blocked-Keeps f contains _ s f.blockers window required free
          (λ asked. record {
            unlocked = λ h. absurd (ground arith);
            not_rebooted = alive;
            tainted = λ r. ground arith;
            untainted = λ out. ground arith;
          })
          (take_lock-Keeps (record s { asked = s.asked ++ f.blockers; blocked = false }) t node
            (
              (window, required, ap (λ asked. asked ++ f.blockers) unasked, refl),
              undrained,
              unrefused,
              alive,
              kept,
            )))

  when_required-Keeps : (s : Status) (t : Taint) → IsDue s → Kept s (when_required f t)
  unfolding when_required
  when_required-Keeps s t due = (tt, found)
    where
      marked : (node : Node) (r : Bool) → Kept s (if r then unless_blocked f t node else ret t)
      marked node true = unless_blocked-Keeps s t node due
      marked node false = record {
        unlocked = λ h. absurd (ground arith);
        not_rebooted = due.7;
        tainted = λ r. ground arith;
        untainted = λ out. ground arith;
      }

      found : (n : Option Node) → Kept s (with_node f t n)
      found none = tt
      found (some node) =
          Keeps-bind (tick_monitor f contains) (GoesOn f contains) _ s (mark_reboot f node)
            (mark_reboot-Keeps f contains _ s node (marked node))

  pub reboot_tick-Keeps : (t : Taint) → Kept nothing_seen (reboot_tick f contains t)
  unfolding reboot_tick
  reboot_tick-Keeps t = (tt, λ now. in_time (contains now))
    where
      idle :
          (s : Status)
          → s.locked ≡ false
          → s.rebooted ≡ false
          → s.refused ≡ false
          → Kept s (disable t)
      idle s unlocked alive unrefused = disable-Keeps f contains (GoesOn f contains) s t λ t' unset.
          record {
            unlocked = λ h. absurd (ground arith);
            not_rebooted = alive;
            tainted = λ r. ground arith;
            untainted = λ out. unset;
          }

      due :
          (r : Bool)
          → Kept
              (record nothing_seen { in_window = true; required = r })
              (if r then when_required f t else disable t)
      due true = when_required-Keeps _ t (refl, refl, refl, refl, refl, refl, refl, refl, refl)
      due false = idle _ refl refl refl

      in_time :
          (b : Bool)
          → Kept
              (record nothing_seen { in_window = b })
              (if b
                then ask reboot_required >>= (λ r. if r then when_required f t else disable t)
                else disable t)
      in_time true = (refl, due)
      in_time false = idle _ refl refl refl
