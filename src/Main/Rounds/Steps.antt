-- ===== src/Main/Rounds/Steps.antt =====
-- The two loops of `rebootAsRequired` in cmd/kured/main.go keep the rules of their ticks, however many
-- these are.
use kured.Common.{ℕ, zero, suc, ◌≡◌, Bool, true, false, [], if◌then◌else◌, refl, arith}
use kured.Kube.Program.{Program, ret}
use kured.Kube.Trace.{Keeps, Keeps-bind, Keeps-mono, Keeps-exec, World, exec, Obeys, EndsIn}
use kured.Taints.{Taint}
use kured.Main.Flags.{Flags}
use kured.Main.Loop.{startup_tick, reboot_tick}
use kured.Main.Startup.{Startup, startup_monitor, LeavesBy}
use kured.Main.Startup.Safety.{startup_tick-Keeps}
use kured.Main.Status.{Status, nothing_seen, tick_monitor, GoesOn}
use kured.Main.Safety.{reboot_tick-Keeps}
use kured.Main.Rounds.{startup_loop, reboot_loop}

-- How the first loop ends: as its last tick does, or with no ticks left.
abbrev pub Ends : Startup → Bool → Type 0
Ends s true = LeavesBy s true
Ends s false = Unit

-- The second loop goes on without a reboot, and keeps a lock only if its release failed.
abbrev pub LoopsOn : Status → Taint → Type 0
LoopsOn s t = (s.locked ≡ true → s.release_tried ≡ true) × (s.rebooted ≡ false)

module _ (f : Flags) (contains : ℕ → Bool) where
  -- A tick forgets what the ticks before it have shown.
  startup_tick-again : (s : Startup) → Keeps startup_monitor LeavesBy s (startup_tick f)
  unfolding startup_tick
  startup_tick-again s = (tt, (startup_tick-Keeps f).1)

  pub startup_loop-Keeps : (n : ℕ) (s : Startup) → Keeps startup_monitor Ends s (startup_loop f n)
  unfolding startup_loop
  startup_loop-Keeps zero s = tt
  startup_loop-Keeps (suc n) s =
      Keeps-bind startup_monitor Ends (λ ended. if ended then ret true else startup_loop f n) s
        (startup_tick f)
        (Keeps-mono startup_monitor LeavesBy _ (after (startup_loop f n) (startup_loop-Keeps n)) s
          (startup_tick f) (startup_tick-again s))
    where
      after :
          (rest : Program Bool)
          → ((m : Startup) → Keeps startup_monitor Ends m rest)
          → (m : Startup) (ended : Bool) → LeavesBy m ended
          → Keeps startup_monitor Ends m (if ended then ret true else rest)
      after rest h m true l = l
      after rest h m false l = h m

  reboot_tick-again :
      (s : Status) (t : Taint)
      → Keeps (tick_monitor f contains) (GoesOn f contains) s (reboot_tick f contains t)
  unfolding reboot_tick
  reboot_tick-again s t = (tt, (reboot_tick-Keeps f contains t).1)

  reboot_loop-Keeps :
      (n : ℕ) (s : Status) (t : Taint)
      → LoopsOn s t
      → Keeps (tick_monitor f contains) LoopsOn s (reboot_loop f contains n t)
  unfolding reboot_loop
  reboot_loop-Keeps zero s t h = h
  reboot_loop-Keeps (suc n) s t h =
      Keeps-bind (tick_monitor f contains) LoopsOn (reboot_loop f contains n) s
        (reboot_tick f contains t)
        (Keeps-mono (tick_monitor f contains) (GoesOn f contains)
          (λ m u. Keeps (tick_monitor f contains) LoopsOn m (reboot_loop f contains n u))
          (λ m u on. reboot_loop-Keeps n m u (on.unlocked, on.not_rebooted)) s
          (reboot_tick f contains t) (reboot_tick-again s t))

  -- Whatever the world answers, any number of ticks of the second loop make their calls by the rules of
  -- Main/Status, each tick by what its own calls have shown, and the loop goes on without a reboot
  -- and keeps a lock that its last tick has found or taken only if the release failed.
  pub reboot_loop-Obeys :
      (w : World) (n : ℕ) (t : Taint)
      → Obeys (tick_monitor f contains) (exec w [] (reboot_loop f contains n t)).1
        × EndsIn (tick_monitor f contains) LoopsOn (exec w [] (reboot_loop f contains n t))
  reboot_loop-Obeys w n t =
      Keeps-exec (tick_monitor f contains) LoopsOn w [] _ tt
        (reboot_loop-Keeps n nothing_seen t ((λ h. absurd (ground arith)), refl))
