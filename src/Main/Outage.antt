-- ===== src/Main/Outage.antt =====
-- The first loop of `rebootAsRequired` in cmd/kured/main.go when the lock of
-- pkg/daemonsetlock/daemonsetlock.go cannot be read.
use kured.Main.Flags.{Flags}
