-- ===== src/Main/Status.antt =====
-- What one tick of the second loop of `rebootAsRequired` in cmd/kured/main.go has to keep: a monitor of
-- its calls, independent of the code.
use kured.Common.{ℕ, ◌≡◌, ◌≢◌, ◌⊎◌, Bool, true, false, not, ◌&&◌, ◌||◌, List, [], ◌∷◌, ◌++◌}
use kured.Kube.{
  Call, Reply, cordon_or_uncordon, drain_node, reboot_required, is_blocked, time_now, lock_holding,
  lock_acquire, lock_release, reboot,
}
use kured.Kube.Program.{Stop, waits}
use kured.Kube.Trace.{Monitor}
use kured.Taints.{Taint}
use kured.Main.Flags.{Flags}

-- What the replies of the tick have shown.
pub record Status : Type 0 where
  pub in_window : Bool
  pub required : Bool
  pub asked : List ℕ  -- the blockers, in the order in which they were asked
  pub blocked : Bool
  pub locked : Bool
  pub refused : Bool
  pub cordoned : Bool
  pub drained : Bool
  pub failed : Bool  -- the last cordon or drain
  pub release_tried : Bool
  pub rebooted : Bool

abbrev pub nothing_seen : Status
nothing_seen = record {
  in_window = false;
  required = false;
  asked = [];
  blocked = false;
  locked = false;
  refused = false;
  cordoned = false;
  drained = false;
  failed = false;
  release_tried = false;
  rebooted = false;
}

module _ (f : Flags) (contains : ℕ → Bool) where
  abbrev pub observe : Status → (c : Call) → Reply c → Status
  observe s time_now r = record nothing_seen { in_window = contains r }  -- a tick begins
  observe s reboot_required r = record s { required = r }
  observe s (is_blocked k) r = record s { asked = s.asked ++ k ∷ []; blocked = r || s.blocked }
  observe s lock_holding r = record s { locked = r.holding }
  observe s (lock_acquire m) r = record s { locked = r.acquired; refused = not r.acquired }
  observe s lock_release r = record s { locked = not r; release_tried = true }
  observe s (cordon_or_uncordon n true) r = record s { cordoned = r; failed = not r }
  observe s (drain_node i) r = record s { drained = r; failed = not r }
  observe s reboot r = record s { rebooted = r }
  observe s _ r = s

  -- In the window, with a reboot required, and with every blocker asked and none blocking.
  abbrev pub IsClear : Status → Type 0
  IsClear s =
      (s.in_window ≡ true) × (s.required ≡ true) × (s.asked ≡ f.blockers) × (s.blocked ≡ false)

  -- Then with the lock too, and before anything else.
  abbrev pub IsArmed : Status → Type 0
  IsArmed s =
      IsClear s
      × (s.locked ≡ true)
      × (s.drained ≡ false)
      × (s.refused ≡ false)
      × (s.rebooted ≡ false)
      × (s.release_tried ≡ false)

  -- When a call may be made.
  abbrev pub Rule : Status → Call → Type 0
  Rule s reboot_required = s.in_window ≡ true
  Rule s (is_blocked k) = (s.in_window ≡ true) × (s.required ≡ true) × (s.blocked ≡ false)
  Rule s lock_holding = IsClear s
  Rule s (lock_acquire m) = IsClear s × (s.locked ≡ false)
  Rule s (cordon_or_uncordon n true) = IsArmed s
  Rule s (cordon_or_uncordon n false) =
      (s.release_tried ≡ true) × (s.failed ≡ true) × (f.force_reboot ≡ false)
  Rule s (drain_node i) = IsArmed s × (s.cordoned ≡ true)
  Rule s lock_release =
      (s.locked ≡ true)
      × (s.failed ≡ true)
      × (s.drained ≡ false)
      × (f.force_reboot ≡ false)
  Rule s reboot =
      IsClear s
      × (s.locked ≡ true)
      × (s.release_tried ≡ false)
      × ((s.drained ≡ true) ⊎ (f.force_reboot ≡ true))
  Rule s _ = Unit

  -- The endless wait comes after a reboot that was triggered.
  abbrev pub StopRule : Status → Stop → Type 0
  StopRule s waits = s.rebooted ≡ true
  StopRule s _ = Unit

  abbrev pub tick_monitor : Monitor
  tick_monitor = record {
    S = Status;
    start = nothing_seen;
    observe = observe;
    Rule = Rule;
    StopRule = StopRule;
  }

  -- How a tick may go on to the next: without a reboot, and without a lock that it has found or taken,
  -- unless its release has failed; with the taint set if
  -- the lock was refused, and removed if it is no time to reboot or no reboot is required.
  pub record GoesOn (s : Status) (t : Taint) : Type 0 where
    pub unlocked : s.locked ≡ true → s.release_tried ≡ true
    pub not_rebooted : s.rebooted ≡ false
    pub tainted : s.refused ≡ true → t.taint_name ≢ [] → t.exists ≡ true
    pub untainted : s.in_window && s.required ≡ false → t.taint_name ≢ [] → t.exists ≡ false
