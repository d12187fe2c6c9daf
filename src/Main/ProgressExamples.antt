-- ===== src/Main/ProgressExamples.antt =====
-- The loops of cmd/kured/main.go in worlds where all goes well.
use kured.Common.{◌≡◌, refl, inl, true, List, []}
use kured.Kube.{Call, lock_holding, lock_release, get_node, cordon_or_uncordon, remove_annotation}
use kured.Kube.Trace.{Event, done, exec, watch}
use kured.Main.Loop.{startup_tick}
use kured.Main.Startup.{startup_monitor, IsRestored}
use kured.Main.Progress.Restore.{Restores, startup_tick-done}
use kured.Main.Examples.{flags, after_reboot}

after_reboot-Restores : (h : List Event) (c : Call) → Restores c (after_reboot h c)
after_reboot-Restores h lock_holding = refl
after_reboot-Restores h (get_node i) = inl refl
after_reboot-Restores h (cordon_or_uncordon n b) = refl
after_reboot-Restores h (remove_annotation i path) = refl
after_reboot-Restores h lock_release = refl
after_reboot-Restores h _ = tt

startup_tick-done_example :
    ((exec after_reboot [] (startup_tick flags)).0 ≡ done true)
    × ((watch startup_monitor (exec after_reboot [] (startup_tick flags)).1).released ≡ true)
    × IsRestored (watch startup_monitor (exec after_reboot [] (startup_tick flags)).1)
startup_tick-done_example = startup_tick-done flags after_reboot refl after_reboot-Restores
