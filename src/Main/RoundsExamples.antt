-- ===== src/Main/RoundsExamples.antt =====
-- `rebootAsRequired` of cmd/kured/main.go on a node that comes up with the lock.
use kured.Common.{◌≡◌, refl, [], text_eq}
use kured.Kube.Program.{waits}
use kured.Kube.Trace.{stopped, exec, Obeys, EndsIn}
use kured.Main.Rounds.{reboot_as_required}
use kured.Main.Rounds.Boot.{boot_monitor, Anything}
use kured.Main.Rounds.Order.{reboot_as_required-Obeys}
use kured.Main.Examples.{flags, noon, after_reboot}

reboot_as_required-Obeys_example :
    Obeys boot_monitor (exec after_reboot [] (reboot_as_required flags noon 1 1)).1
    × EndsIn boot_monitor Anything (exec after_reboot [] (reboot_as_required flags noon 1 1))
reboot_as_required-Obeys_example = reboot_as_required-Obeys flags noon after_reboot 1 1

-- It is put back, and as the sentinel asks for another reboot, it reboots again.
ends_waiting : (exec after_reboot [] (reboot_as_required flags noon 1 1)).0 ≡ stopped waits
unfolding exec reboot_as_required text_eq
ends_waiting = refl
