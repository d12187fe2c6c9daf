-- ===== src/Blockers.antt =====
-- pkg/blockers/blockers.go: whether one of the blockers blocks the reboot.
pub mod Prometheus
pub mod Pods
mod Examples
use kured.Common.{ℕ, Bool, true, false, List, [], ◌∷◌}
use kured.Kube.{is_blocked}
use kured.Kube.Program.{Program, ret, ask, ◌>>=◌}

-- The blockers are named by numbers. The loop stops at the first that blocks.
unfoldable pub reboot_blocked : List ℕ → Program Bool
reboot_blocked [] = ret false
reboot_blocked (b ∷ bs) =
    let rest = reboot_blocked bs in
    ask (is_blocked b) >>= λ blocked. elim blocked [ true ↦ ret true | false ↦ rest ]
