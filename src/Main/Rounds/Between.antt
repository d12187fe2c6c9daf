-- ===== src/Main/Rounds/Between.antt =====
-- cmd/kured/main.go: between its loops, `rebootAsRequired` reads the node's taint and removes one that is
-- not needed.
use kured.Common.{
  ℕ, ◌≡◌, Bool, true, false, not, Option, none, some, [], if◌then◌else◌, text_eq, Text,
}
use kured.Kube.{Node, reboot_required}
use kured.Kube.Program.{ret, ask, ◌>>=◌, ◌>>◌}
use kured.Kube.Trace.{Keeps, Keeps-bind}
use kured.Taints.{
  Taint, find_taint, found_taint, taint_exists, search_node, apply_taint, or_fatal,
  prefer_no_schedule, new, disable,
}
use kured.Main.Flags.{Flags, taint_effect_prefer_no_schedule}
use kured.Main.Loop.{startup_taint}
use kured.Main.Rounds.Boot.{Boot, boot_monitor}

-- What the first loop leaves, and the second begins with.
abbrev pub StaysFree : {A : Type 0} → Boot → A → Type 0
StaysFree s a = s.free ≡ true

-- Between the loops nothing is done that the rules look at.
module _ (s : Boot) (free : s.free ≡ true) where
  prefer_no_schedule-Keeps :
      (node_id name effect : Text) (b : Bool)
      → Keeps boot_monitor StaysFree s (prefer_no_schedule node_id name effect b)
  unfolding prefer_no_schedule
  prefer_no_schedule-Keeps node_id name effect b = (tt, searched)
    where
      patched : (r : Bool) → Keeps boot_monitor StaysFree s (or_fatal r)
      patched true = free
      patched false = tt

      applied :
          (c : Bool) (found : Bool × ℕ × Node)
          → Keeps boot_monitor StaysFree s (apply_taint node_id name effect c found)
      applied true (true, i, n) = free
      applied false (false, i, n) = free
      applied true (false, i, n) = (tt, patched)
      applied false (true, i, n) = (tt, patched)

      searched :
          (node : Option Node)
          → Keeps boot_monitor StaysFree s
              (search_node name node >>= apply_taint node_id name effect b)
      searched none = tt
      searched (some n) = applied b _

  disable-Keeps : (t : Taint) → Keeps boot_monitor StaysFree s (disable t)
  unfolding disable
  disable-Keeps t = named (text_eq t.taint_name []) (not t.exists)
    where
      named :
          (unnamed away : Bool)
          → Keeps boot_monitor StaysFree s (
              if unnamed
              then ret t
              else if away
              then ret t
              else prefer_no_schedule t.node_id t.taint_name t.effect false
                >> ret (record t { exists = false }))
      named true away = free
      named false true = free
      named false false =
          Keeps-bind boot_monitor StaysFree (λ u. ret (record t { exists = false })) s
            (prefer_no_schedule t.node_id t.taint_name t.effect false)
            (prefer_no_schedule-Keeps t.node_id t.taint_name t.effect false)

  pub startup_taint-Keeps : (f : Flags) → Keeps boot_monitor StaysFree s (startup_taint f)
  unfolding startup_taint new taint_exists
  startup_taint-Keeps f = (tt, searched)
    where
      asked :
          (t : Taint) (unneeded : Bool)
          → Keeps boot_monitor StaysFree s (if unneeded then disable t else ret t)
      asked t true = disable-Keeps t
      asked t false = free

      found :
          (node : Node) (o : Option ℕ)
          → Keeps boot_monitor StaysFree s (
              ret (found_taint node o)
              >>= (λ (exists, offset, n). ret (record {
                node_id = f.node_id;
                taint_name = f.prefer_no_schedule_taint_name;
                effect = taint_effect_prefer_no_schedule;
                exists = exists;
              }))
              >>= λ t. ask reboot_required >>= λ r. if not r then disable t else ret t)
      found node none = (tt, λ r. asked _ (not r))
      found node (some i) = (tt, λ r. asked _ (not r))

      searched :
          (node : Option Node)
          → Keeps boot_monitor StaysFree s (
              (search_node f.prefer_no_schedule_taint_name node >>= (λ (exists, offset, n).
                ret (record {
                  node_id = f.node_id;
                  taint_name = f.prefer_no_schedule_taint_name;
                  effect = taint_effect_prefer_no_schedule;
                  exists = exists;
                })))
              >>= λ t. ask reboot_required >>= λ r. if not r then disable t else ret t)
      searched none = tt
      searched (some node) = found node (find_taint f.prefer_no_schedule_taint_name node.taints 0)
