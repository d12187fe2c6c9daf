-- ===== src/Main/Progress/Reboot.antt =====
-- A tick of the second loop of `rebootAsRequired` in cmd/kured/main.go that reboots.
use kured.Kube.Program.{Program}
use kured.Main.Flags.{Flags}
