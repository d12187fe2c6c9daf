-- ===== src/Main/Rounds/Order.antt =====
-- `rebootAsRequired` in cmd/kured/main.go keeps the order of its loops.
use kured.Common.{ℕ, zero, suc, ◌≡◌, inl, Bool, true, false, not, ◌||◌, some, [], refl}
use kured.Kube.{lock_holding}
use kured.Kube.Program.{ret}
use kured.Kube.Trace.{Keeps, Keeps-bind, Keeps-mono, Keeps-exec, World, exec, Obeys, EndsIn}
use kured.Taints.{Taint}
use kured.Main.Flags.{Flags}
use kured.Main.Loop.{startup_taint, startup_tick, reboot_tick}
use kured.Main.Startup.{nothing_shown, show}
use kured.Main.Rounds.{startup_loop, reboot_loop, after_startup, reboot_as_required}
use kured.Main.Rounds.Steps.{startup_loop-Keeps}
use kured.Main.Rounds.Boot.{
  Boot, coming_up, note, boot_monitor, Anything, IsFree, begun-Keeps, startup-Keeps,
}
use kured.Main.Rounds.Between.{StaysFree, startup_taint-Keeps}

module _ (f : Flags) (contains : ℕ → Bool) where
  startup_loop-IsFree : (n : ℕ) → Keeps boot_monitor IsFree coming_up (startup_loop f n)
  unfolding startup_loop startup_tick
  startup_loop-IsFree zero = tt
  startup_loop-IsFree (suc n) = (
    tt,
    λ r.
        startup-Keeps (show nothing_shown lock_holding r) (note coming_up lock_holding r) _
          (held r.holding) ((startup_loop-Keeps f contains (suc n) nothing_shown).1 r),
  )
    where
      held : (h : Bool) → not h ≡ not h || false
      held true = refl
      held false = refl

  reboot_loop-Anything :
      (n : ℕ) (s : Boot) (t : Taint)
      → s.free ≡ true
      → Keeps boot_monitor Anything s (reboot_loop f contains n t)
  unfolding reboot_loop reboot_tick
  reboot_loop-Anything zero s t free = tt
  reboot_loop-Anything (suc n) s t free = (inl free, λ now. begun-Keeps _ _ refl)

  after_startup-Keeps :
      (ticks : ℕ) (s : Boot) (ended : Bool)
      → IsFree s ended
      → Keeps boot_monitor Anything s (after_startup f contains ticks ended)
  after_startup-Keeps ticks s false h = tt
  after_startup-Keeps ticks s true free = Keeps-bind boot_monitor Anything _ s (startup_taint f) (
      Keeps-mono boot_monitor StaysFree _
        (λ m t h.
          Keeps-bind boot_monitor Anything (λ t'. ret (some t')) m (reboot_loop f contains ticks t)
            (Keeps-mono boot_monitor Anything _ (λ m' t' u. tt) m _
              (reboot_loop-Anything ticks m t h)))
        s (startup_taint f) (startup_taint-Keeps s free f))

  -- Whatever the world answers, and however many ticks the two loops are given, `rebootAsRequired` takes
  -- the lock, cordons a node, drains one and reboots only after the second loop has begun, waits forever
  -- only then, and begins the second loop only once `Holding` has answered that the lock is not held,
  -- which is also its answer when it fails, or `Release` has succeeded.
  pub reboot_as_required-Obeys :
      (w : World) (startup_ticks ticks : ℕ)
      → Obeys boot_monitor (exec w [] (reboot_as_required f contains startup_ticks ticks)).1
        × EndsIn boot_monitor Anything
            (exec w [] (reboot_as_required f contains startup_ticks ticks))
  unfolding reboot_as_required
  reboot_as_required-Obeys w startup_ticks ticks = Keeps-exec boot_monitor Anything w [] _ tt (
      Keeps-bind boot_monitor Anything (after_startup f contains ticks) coming_up
        (startup_loop f startup_ticks)
        (Keeps-mono boot_monitor IsFree _ (after_startup-Keeps ticks) coming_up
          (startup_loop f startup_ticks) (startup_loop-IsFree startup_ticks)))
