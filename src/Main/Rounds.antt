-- ===== src/Main/Rounds.antt =====
-- cmd/kured/main.go: `rebootAsRequired` over the ticks of its two loops. The code's loops go on for ever;
-- here they get a number of ticks.
pub mod Steps
pub mod Boot
pub mod Between
pub mod Order
use kured.Common.{ℕ, zero, suc, Bool, true, false, Option, none, some, if◌then◌else◌}
use kured.Kube.Program.{Program, ret, ◌>>=◌}
use kured.Taints.{Taint}
use kured.Main.Flags.{Flags}
use kured.Main.Loop.{startup_tick, startup_taint, reboot_tick}

module _ (f : Flags) where
  -- True is the end of the loop, and false that there are no ticks left.
  unfoldable pub startup_loop : ℕ → Program Bool
  unfolding startup_tick
  startup_loop zero = ret false
  startup_loop (suc n) =
      let rest = startup_loop n in startup_tick f >>= λ ended. if ended then ret true else rest

  module _ (contains : ℕ → Bool) where
    unfoldable pub reboot_loop : ℕ → Taint → Program Taint
    unfolding reboot_tick
    reboot_loop zero t = ret t
    reboot_loop (suc n) t = reboot_tick f contains t >>= reboot_loop n

    abbrev pub after_startup : ℕ → Bool → Program (Option Taint)
    after_startup ticks true = do t ← startup_taint f; t' ← reboot_loop ticks t; ret (some t')
    after_startup ticks false = ret none

    -- `none` is a run that has not left the first loop.
    unfoldable pub reboot_as_required : (startup_ticks ticks : ℕ) → Program (Option Taint)
    unfolding startup_loop startup_taint reboot_loop
    reboot_as_required startup_ticks ticks = startup_loop startup_ticks >>= after_startup ticks
